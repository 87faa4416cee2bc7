-- ===== src/GameState/Ids.antt =====
-- The identity of a device (esp32/shared/src/game_state.cpp): generated, kept in flash, loaded at
-- start-up. The flash library is the parameter of `NvsStore`, and `esp_random()` is an argument.
pub mod Range
pub mod Persist
pub mod Boot
use mathlib.Core.Option
use ray_z.GameState.Config.{load_default_game_config}
use ray_z.GameState.Defs.{Vars, zero_device_config, zero_game_config, zero_state}
use ray_z.GameState.Runtime.{reset_runtime}
use ray_z.NvsStore.{Nvs, read_str, read_u32, read_u8, write_str, write_u32, write_u8}
use ray_z.Prelude.{
  Bool, Bytes, Option, bit_and, codes, copy_str, false, if◌then◌else◌, length, ltb, none, not, some,
  true, u8, ℕ, ◌%◌, ◌&&◌, ◌+◌, ◌==◌, ◌||◌,
}
use ray_z.Protocol.{DeviceRole, max_device_id, max_player_id}

abbrev pub game_ns : Bytes
game_ns = codes "game"

abbrev pub key_device_id : Bytes
key_device_id = codes "device_id_u8"

abbrev pub key_player_id : Bytes
key_player_id = codes "player_id_u8"

abbrev pub key_team_id : Bytes
key_team_id = codes "team_id_u8"

abbrev pub key_color : Bytes
key_color = codes "color_u32"

abbrev pub key_device_name : Bytes
key_device_name = codes "device_name"

abbrev pub rand_u8 : ℕ → ℕ
rand_u8 random = u8 (bit_and random 0xff)

unfoldable pub generate_ids : ℕ → Vars → Vars
generate_ids random g =
    let c = g.config in
    let device_id =
      if c.device_id == 0 || ltb max_device_id c.device_id
      then u8 (rand_u8 random % max_device_id + 1)
      else c.device_id in
    let player_id =
      if c.player_id == 0 || ltb max_player_id c.player_id
      then u8 (device_id % max_player_id + 1)
      else c.player_id in
    record g { config = record c { device_id = device_id; player_id = player_id } }

-- A value that was read replaces the old one.
abbrev pub or_keep {ℓ} : {A : Type ℓ} → Option A → A → A
or_keep none old = old
or_keep (some a) old = a

-- An identifier out of its range is read as 0.
abbrev pub in_range_or_0 : ℕ → ℕ → ℕ
in_range_or_0 hi id = if ltb hi id then 0 else id

module _ (nvs : Nvs) where
  open nvs use {Flash}

  unfoldable pub load_ids : Flash → Vars → Bool × Vars
  load_ids f g =
      let c = g.config in
      let device = read_u8 nvs game_ns key_device_id f in
      (
        elim device [ none ↦ false | some _ ↦ true ],
        record g {
          config = record c {
            device_id = or_keep (Option.map (in_range_or_0 max_device_id) device) c.device_id;
            player_id =
                or_keep
                  (Option.map (in_range_or_0 max_player_id) (read_u8 nvs game_ns key_player_id f))
                  c.player_id;
            team_id = or_keep (read_u8 nvs game_ns key_team_id f) c.team_id;
            color_rgb = or_keep (read_u32 nvs game_ns key_color f) c.color_rgb;
            device_name =
                or_keep (Option.map (copy_str 32) (read_str nvs game_ns key_device_name 32 f))
                  c.device_name;
          };
        },
      )

  -- The device name is stored only if it is not empty.
  unfoldable pub save_name : Bytes → Flash → Bool × Flash
  save_name name f =
      if ltb 0 (length name) then write_str nvs game_ns key_device_name name f else (true, f)

  -- The two identifiers are masked first; every write is made, also after one that failed.
  unfoldable pub save_ids : Flash → Vars → Bool × Flash × Vars
  unfolding save_name
  save_ids f g =
      let device_id = u8 (bit_and g.config.device_id max_device_id) in
      let player_id = u8 (bit_and g.config.player_id max_player_id) in
      let (ok1, f1) = write_u8 nvs game_ns key_device_id device_id f in
      let (ok2, f2) = write_u8 nvs game_ns key_player_id player_id f1 in
      let (ok3, f3) = write_u8 nvs game_ns key_team_id g.config.team_id f2 in
      let (ok4, f4) = write_u32 nvs game_ns key_color g.config.color_rgb f3 in
      let (ok5, f5) = save_name g.config.device_name f4 in
      (
        ok1 && (ok2 && (ok3 && (ok4 && ok5))),
        f5,
        record g { config = record g.config { device_id = device_id; player_id = player_id } },
      )

  -- `game_state_init`; `mutex` is whether the mutex could be created. The name table is static
  -- and is not reset here.
  unfoldable pub init : DeviceRole → Bool → ℕ → Flash → Vars → Bool × Vars
  unfolding load_ids
  init role mutex random f g =
      if g.initialized then (true, g) else if not mutex then (false, g) else (
        true,
        record (reset_runtime
            (load_ids f (
              generate_ids random (
                load_default_game_config (record g {
                  config = record zero_device_config { role = role };
                  game_cfg = zero_game_config;
                  state = zero_state;
                })))).1) { initialized = true },
      )
