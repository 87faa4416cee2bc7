-- ===== src/NvsStore.antt =====
-- esp32/shared/src/nvs_store.cpp over the NVS flash library, which is a parameter: what an opened
-- namespace returns, and how a write followed by a commit changes the stored items.
pub mod Stored
use ray_z.Prelude.{
  Bool, Bytes, Option, false, if◌then◌else◌, length, ltb, none, some, str_eq, true, ℕ, ◌&&◌, ◌≡◌,
  ◌≢◌,
}

-- The kinds of items that the program stores.
pub data Item : Type 0 where
  byte word : ℕ → Item
  text : Bytes → Item

abbrev pub as_byte : Option Item → Option ℕ
as_byte (some (byte n)) = some n
as_byte (some (word n)) = none
as_byte (some (text s)) = none
as_byte none = none

abbrev pub as_word : Option Item → Option ℕ
as_word (some (word n)) = some n
as_word (some (byte n)) = none
as_word (some (text s)) = none
as_word none = none

-- `nvs_get_str` fails if the text and its NUL do not fit in `max_len` bytes.
abbrev pub as_text : ℕ → Option Item → Option Bytes
as_text max_len (some (text s)) = if ltb (length s) max_len then some s else none
as_text max_len (some (byte n)) = none
as_text max_len (some (word n)) = none
as_text max_len none = none

-- The library: an error of a call is `none` or `false`. `view` is the item stored under a
-- namespace and a key. The laws are the documented ones: a namespace that holds an item can be
-- opened, a read returns the item of its type, a committed write changes that item only, and after a
-- committed erasure of a namespace none of its items is there.
pub record Nvs : Type 1 where
  pub Flash : Type 0
  pub Handle : Type 0
  pub view : Flash → Bytes → Bytes → Option Item
  pub nvs_open : Bytes → Bool → Flash → Option Handle
  pub nvs_get_u8 : Handle → Bytes → Flash → Option ℕ
  pub nvs_get_u32 : Handle → Bytes → Flash → Option ℕ
  pub nvs_get_str : Handle → Bytes → ℕ → Flash → Option Bytes
  pub nvs_set : Handle → Bytes → Item → Flash → Bool × Flash
  pub nvs_commit : Handle → Flash → Bool × Flash
  pub nvs_erase_all : Handle → Flash → Bool × Flash
  pub open_stored : (ns key : Bytes) (f : Flash) → view f ns key ≢ none → nvs_open ns false f ≢ none
  pub get_u8_view :
      (ns key : Bytes) (f : Flash) (h : Handle)
      → nvs_open ns false f ≡ some h
      → nvs_get_u8 h key f ≡ as_byte (view f ns key)
  pub get_u32_view :
      (ns key : Bytes) (f : Flash) (h : Handle)
      → nvs_open ns false f ≡ some h
      → nvs_get_u32 h key f ≡ as_word (view f ns key)
  pub get_str_view :
      (ns key : Bytes) (n : ℕ) (f : Flash) (h : Handle)
      → nvs_open ns false f ≡ some h
      → nvs_get_str h key n f ≡ as_text n (view f ns key)
  pub set_commit_view :
      (ns key : Bytes) (v : Item) (f : Flash) (h : Handle) (ns' key' : Bytes)
      → nvs_open ns true f ≡ some h
      → (nvs_set h key v f).0 ≡ true
      → (nvs_commit h (nvs_set h key v f).1).0 ≡ true
      → view (nvs_commit h (nvs_set h key v f).1).1 ns' key'
        ≡ (if str_eq ns ns' && str_eq key key' then some v else view f ns' key')
  pub erase_commit_view :
      (ns : Bytes) (f : Flash) (h : Handle) (key : Bytes)
      → nvs_open ns true f ≡ some h
      → (nvs_erase_all h f).0 ≡ true
      → (nvs_commit h (nvs_erase_all h f).1).0 ≡ true
      → view (nvs_commit h (nvs_erase_all h f).1).1 ns key ≡ none

module _ (nvs : Nvs) where
  open nvs use {
    Flash, Handle, nvs_open, nvs_get_u8, nvs_get_u32, nvs_get_str, nvs_set, nvs_commit,
    nvs_erase_all,
  }

  -- The three read functions differ only in the getter `get` that they call. The out parameter is
  -- written only on success. The pointers that the program passes are never NULL.
  unfoldable pub read_item : {A : Type 0} → Bytes → (Handle → Option A) → Flash → Option A
  read_item ns get f = elim (nvs_open ns false f) [ none ↦ none | some h ↦ get h ]

  unfoldable pub read_u8 : Bytes → Bytes → Flash → Option ℕ
  read_u8 ns key f = read_item ns (λ h. nvs_get_u8 h key f) f

  unfoldable pub read_u32 : Bytes → Bytes → Flash → Option ℕ
  read_u32 ns key f = read_item ns (λ h. nvs_get_u32 h key f) f

  unfoldable pub read_str : Bytes → Bytes → ℕ → Flash → Option Bytes
  read_str ns key max_len f = read_item ns (λ h. nvs_get_str h key max_len f) f

  -- The three write functions differ only in the setter that they call: commit only if it
  -- succeeds.
  unfoldable pub write_item : Bytes → Bytes → Item → Flash → Bool × Flash
  write_item ns key v f = elim (nvs_open ns true f) [
    | none ↦ (false, f)
    | some h ↦
        let (ok, f') = nvs_set h key v f in elim ok [ true ↦ nvs_commit h f' | false ↦ (false, f') ]
  ]

  unfoldable pub write_u8 : Bytes → Bytes → ℕ → Flash → Bool × Flash
  unfolding write_item
  write_u8 ns key v f = write_item ns key (byte v) f

  unfoldable pub write_u32 : Bytes → Bytes → ℕ → Flash → Bool × Flash
  unfolding write_item
  write_u32 ns key v f = write_item ns key (word v) f

  unfoldable pub write_str : Bytes → Bytes → Bytes → Flash → Bool × Flash
  unfolding write_item
  write_str ns key v f = write_item ns key (text v) f

  unfoldable pub erase_namespace : Bytes → Flash → Bool × Flash
  erase_namespace ns f = elim (nvs_open ns true f) [
    | none ↦ (false, f)
    | some h ↦
        let (ok, f') = nvs_erase_all h f in elim ok [ true ↦ nvs_commit h f' | false ↦ (false, f') ]
  ]
