-- ===== src/Mdns.antt =====
-- The announcement of a device in the local network, esp32/shared/src/mdns_service.cpp, over the mDNS
-- library as a parameter.
pub mod Announced
use ray_z.Prelude.{
  Bool, Bytes, List, Option, [], codes, copy_str, false, if◌then◌else◌, none, not, print_number,
  some, true, ℕ, ◌++◌, ◌∷◌, ◌≡◌,
}

-- The key and the value of a TXT record.
abbrev pub TxtItems : Type 0
TxtItems = List (Bytes × Bytes)

-- The library: its state, its calls, which return whether they succeed, and what others see of it,
-- the host name and the records of the service `_rayz._tcp`, if that is announced. What is documented:
-- `mdns_init`, which does nothing on a library that runs, adds and removes no service; an added service
-- is seen under the name that was set, with the records set last; a failed call to set the records
-- changes nothing that is seen; and nothing is seen after `mdns_free`.
pub record MdnsLib : Type 1 where
  pub Net : Type 0
  pub seen : Net → Option (Bytes × TxtItems)
  pub mdns_init : Net → Bool × Net
  pub mdns_free : Net → Net
  pub hostname_set : Bytes → Net → Bool × Net
  pub instance_name_set : Bytes → Net → Bool × Net
  pub service_add : ℕ → Net → Bool × Net
  pub service_txt_set : TxtItems → Net → Bool × Net
  pub service_remove : Net → Net
  pub free_seen : (n : Net) → seen (mdns_free n) ≡ none
  pub init_seen : (n : Net) → seen (mdns_init n).1 ≡ seen n
  pub txt_ok :
      (items old : TxtItems) (host : Bytes) (n : Net)
      → (service_txt_set items n).0 ≡ true
      → seen n ≡ some (host, old)
      → seen (service_txt_set items n).1 ≡ some (host, items)
  pub txt_failed :
      (items : TxtItems) (n : Net)
      → (service_txt_set items n).0 ≡ false
      → seen (service_txt_set items n).1 ≡ seen n
  pub add_seen :
      (host name : Bytes) (port : ℕ) (n : Net)
      → let m = (instance_name_set name (hostname_set host n).1).1 in
        (hostname_set host n).0 ≡ true
        → (service_add port m).0 ≡ true
        → seen (service_add port m).1 ≡ some (host, [])

-- The variables of the file.
pub record MdnsVars : Type 0 where
  pub instance_name : Bytes
  pub mdns_role : Bytes
  pub mdns_device_id : ℕ
  pub mdns_player_id : ℕ

unfoldable pub txt_data : Bytes → ℕ → ℕ → TxtItems
txt_data role device_id player_id =
    (codes "role", role)
    ∷ (codes "device", print_number device_id)
    ∷ (codes "player", print_number player_id)
    ∷ (codes "version", codes "1.0.0")
    ∷ []

module _ (lib : MdnsLib) where
  open lib use {Net}

  abbrev give_up : Net → MdnsVars → Bool × Net × MdnsVars
  give_up n v = (false, lib.mdns_free n, v)

  -- `none` stands for NULL.
  unfoldable pub mdns_service_init :
      Option Bytes → ℕ → ℕ → ℕ → Net → MdnsVars → Bool × Net × MdnsVars
  mdns_service_init none device_id player_id port n v = (false, n, v)
  mdns_service_init (some role) device_id player_id port n v =
      let named : Bytes =
        copy_str 32 (codes "rayz-" ++ (role ++ (b'-' ∷ print_number device_id))) in
      let kept : MdnsVars = record {
        instance_name = named;
        mdns_role = copy_str 16 role;
        mdns_device_id = device_id;
        mdns_player_id = player_id;
      } in
      let (ok1, n1) = lib.mdns_init n in
      let (ok2, n2) = lib.hostname_set named n1 in
      let (ok3, n3) = lib.instance_name_set named n2 in
      let (ok4, n4) = lib.service_add port n3 in
      let (ok5, n5) = lib.service_txt_set (txt_data kept.mdns_role device_id player_id) n4 in
      if not ok1
      then (false, n1, kept)
      else if not ok2
      then give_up n2 kept
      else if not ok3
      then give_up n3 kept
      else if not ok4
      then give_up n4 kept
      else (true, n5, kept)

  unfoldable pub mdns_service_update_player : ℕ → Net → MdnsVars → Bool × Net × MdnsVars
  mdns_service_update_player player_id n v =
      let (ok, n') = lib.service_txt_set (txt_data v.mdns_role v.mdns_device_id player_id) n in
      (ok, n', record v { mdns_player_id = player_id })

  unfoldable pub mdns_service_deinit : Net → Net
  mdns_service_deinit n = lib.mdns_free (lib.service_remove n)
