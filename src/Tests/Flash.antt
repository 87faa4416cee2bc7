-- ===== src/Tests/Flash.antt =====
-- A flash memory that keeps a list of writes, and a device that starts from it.
use ray_z.GameState.Defs.{Vars, zero_vars}
use ray_z.GameState.Ids.{game_ns, key_device_id, load_ids, save_ids, save_name}
use ray_z.GameState.Ids.Persist.{load_ids-save_ids}
use ray_z.NvsStore.{
  Item, Nvs, as_byte, as_text, as_word, byte, write_item, write_str, write_u32, write_u8,
}
use ray_z.Prelude.{
  Bytes, List, Option, [], arith, codes, if◌then◌else◌, none, refl, some, str_eq, true, ◌&&◌, ◌∷◌,
  ◌≡◌, Bool-cases, ap, inl, inr, sym, ◌∙◌,
}
use ray_z.Protocol.{weapon}
use ray_z.Tests.Data.{alice}

abbrev lookup : List (Bytes × Bytes × Item) → Bytes → Bytes → Option Item
lookup [] ns key = none
lookup ((ns', key', v) ∷ f) ns key =
    let rest = lookup f ns key in if str_eq ns' ns && str_eq key' key then some v else rest

abbrev erase : Bytes → List (Bytes × Bytes × Item) → List (Bytes × Bytes × Item)
erase ns [] = []
erase ns ((ns', key, v) ∷ f) =
    let rest = erase ns f in if str_eq ns' ns then rest else (ns', key, v) ∷ rest

lookup-erase :
    (ns key : Bytes) (f : List (Bytes × Bytes × Item)) → lookup (erase ns f) ns key ≡ none
lookup-erase ns key [] = refl
lookup-erase ns key ((ns', key', v) ∷ f) = elim (Bool-cases (str_eq ns' ns)) [
  | inl mine ↦ rw mine (lookup-erase ns key f)
  | inr other ↦ rw (other, other) (lookup-erase ns key f)
]

pub erase-view :
    (ns : Bytes) (f : List (Bytes × Bytes × Item)) (h key : Bytes)
    → some ns ≡ some h
    → lookup (erase h f) ns key ≡ none
erase-view ns f h key opened =
    let same : ns ≡ h = cc in ap (λ n. lookup (erase n f) ns key) (sym same) ∙ lookup-erase ns key f

abbrev pub flash : Nvs
flash = record {
  Flash = List (Bytes × Bytes × Item);
  Handle = Bytes;
  view = lookup;
  nvs_open = λ ns rw f. some ns;
  nvs_get_u8 = λ h key f. as_byte (lookup f h key);
  nvs_get_u32 = λ h key f. as_word (lookup f h key);
  nvs_get_str = λ h key n f. as_text n (lookup f h key);
  nvs_set = λ h key v f. (true, (h, key, v) ∷ f);
  nvs_commit = λ h f. (true, f);
  nvs_erase_all = λ h f. (true, erase h f);
  open_stored = λ ns key f stored closed. cc;
  get_u8_view = λ ns key f h opened. cc;
  get_u32_view = λ ns key f h opened. cc;
  get_str_view = λ ns key n f h opened. cc;
  erase_commit_view = λ ns f h key opened erased committed. erase-view ns f h key opened;
  set_commit_view = λ ns key v f h ns' key' opened is_set committed. cc;
}

abbrev named : Vars
named = record alice { config = record alice.config { device_name = codes "Alice" } }

load_ids-save_ids_example : load_ids flash (save_ids flash [] named).1 zero_vars ≡ (
  true,
  record zero_vars { config = record (save_ids flash [] named).2.config { role = weapon } },
)
unfolding save_ids write_u8 write_u32 write_str write_item save_name
load_ids-save_ids_example =
    load_ids-save_ids flash [] named zero_vars refl (omega arith) (omega arith)

abbrev stale : List (Bytes × Bytes × Item)
stale = (game_ns, key_device_id, byte 200) ∷ []
