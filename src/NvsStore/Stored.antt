-- ===== src/NvsStore/Stored.antt =====
-- A successful write of esp32/shared/src/nvs_store.cpp is what later reads return.
use ray_z.NvsStore.{
  Item, Nvs, as_byte, as_text, as_word, read_str, read_u32, read_u8, write_item, read_item,
  erase_namespace,
}
use ray_z.Prelude.{
  Bytes, Option-cases, arith, false, if◌then◌else◌, inl, inr, some, str_eq, true, ℕ, ◌&&◌, ◌≡◌,
  Option, none, refl,
}

module _ (nvs : Nvs) where
  open nvs use {Flash, view, nvs_open, nvs_set, nvs_commit}

  -- A write that reports success stores its item and leaves every other item alone.
  pub write_item-view :
      (ns key : Bytes) (v : Item) (f : Flash) (ns' key' : Bytes)
      → (write_item nvs ns key v f).0 ≡ true
      → view (write_item nvs ns key v f).1 ns' key'
        ≡ (if str_eq ns ns' && str_eq key key' then some v else view f ns' key')
  unfolding write_item
  write_item-view ns key v f ns' key' ok = elim (Option-cases (nvs_open ns true f)) [
    | inl closed ↦ ground arith
    | inr (h, opened) ↦ ground (arith, nvs.set_commit_view ns key v f h ns' key' opened)
  ]

  -- An erasure that reports success leaves no item in its namespace.
  pub erase_namespace-view :
      (ns key : Bytes) (f : Flash)
      → (erase_namespace nvs ns f).0 ≡ true
      → view (erase_namespace nvs ns f).1 ns key ≡ none
  unfolding erase_namespace
  erase_namespace-view ns key f ok = elim (Option-cases (nvs_open ns true f)) [
    | inl closed ↦ ground arith
    | inr (h, opened) ↦ ground (arith, nvs.erase_commit_view ns f h key opened)
  ]

  -- A read of a namespace that cannot be opened is a read of an item that is not there.
  read_item-view :
      (ns key : Bytes) (f : Flash) {A : Type 0} (get : nvs.Handle → Option A)
      (as_kind : Option Item → Option A)
      → as_kind none ≡ none
      → ((h : nvs.Handle) → nvs_open ns false f ≡ some h → get h ≡ as_kind (view f ns key))
      → read_item nvs ns get f ≡ as_kind (view f ns key)
  unfolding read_item
  read_item-view ns key f get as_kind empty law = elim (Option-cases (nvs_open ns false f)) [
    | inr (h, opened) ↦ ground (arith, law h opened)
    | inl closed ↦ elim (Option-cases (view f ns key)) [
      | inl missing ↦ ground arith
      | inr (v, stored) ↦ absurd (nvs.open_stored ns key f (λ missing. cc) closed)
    ]
  ]

  pub read_u8-view : (ns key : Bytes) (f : Flash) → read_u8 nvs ns key f ≡ as_byte (view f ns key)
  unfolding read_u8
  read_u8-view ns key f = read_item-view ns key f _ as_byte refl (nvs.get_u8_view ns key f)

  pub read_u32-view : (ns key : Bytes) (f : Flash) → read_u32 nvs ns key f ≡ as_word (view f ns key)
  unfolding read_u32
  read_u32-view ns key f = read_item-view ns key f _ as_word refl (nvs.get_u32_view ns key f)

  pub read_str-view :
      (ns key : Bytes) (n : ℕ) (f : Flash) → read_str nvs ns key n f ≡ as_text n (view f ns key)
  unfolding read_str
  read_str-view ns key n f =
      read_item-view ns key f _ (as_text n) refl (nvs.get_str_view ns key n f)
