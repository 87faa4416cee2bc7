-- ===== src/GameState/Ids/Persist.antt =====
-- Saving and loading the identity (esp32/shared/src/game_state.cpp).
use ray_z.GameState.Defs.{Vars}
use ray_z.GameState.Ids.{
  game_ns, key_color, key_device_id, key_device_name, key_player_id, key_team_id, load_ids,
  save_ids, save_name,
}
use ray_z.NvsStore.{Nvs, byte, text, word, write_str, write_u32, write_u8}
use ray_z.NvsStore.Stored.{write_item-view, read_str-view, read_u32-view, read_u8-view}
use ray_z.Prelude.{
  Bytes, bit_and, if◌then◌else◌, length, some, str_eq, true, u8, ℕ, ◌<◌, ◌∙◌, ◌≡◌, Bool, arith,
  bit_and_low5, bit_and_low6, le→not_ltb, ltb, lt→ltb, take_all, ◌&&◌,
}
use ray_z.Protocol.{max_device_id, max_player_id}

and4 :
    (a b c d e : Bool)
    → (a && (b && (c && (d && e)))) ≡ true
    → (a ≡ true) × ((b ≡ true) × ((c ≡ true) × ((d ≡ true) × (e ≡ true))))
and4 a b c d e h = ground arith

module _ (nvs : Nvs) (f : nvs.Flash) (g : Vars) where
  open nvs use {Flash, view}

  -- The flash after each of the five writes of `save_ids`.
  abbrev device : ℕ
  device = u8 (bit_and g.config.device_id max_device_id)

  abbrev player : ℕ
  player = u8 (bit_and g.config.player_id max_player_id)

  abbrev f1 : Flash
  f1 = (write_u8 nvs game_ns key_device_id device f).1

  abbrev f2 : Flash
  f2 = (write_u8 nvs game_ns key_player_id player f1).1

  abbrev f3 : Flash
  f3 = (write_u8 nvs game_ns key_team_id g.config.team_id f2).1

  abbrev f4 : Flash
  f4 = (write_u32 nvs game_ns key_color g.config.color_rgb f3).1

  abbrev f5 : Flash
  f5 = (write_str nvs game_ns key_device_name g.config.device_name f4).1

  -- All five items are in the flash after a save that reports success.
  record HasIds (h : Flash) : Type 0 where
    has_device : view h game_ns key_device_id ≡ some (byte device)
    has_player : view h game_ns key_player_id ≡ some (byte player)
    has_team : view h game_ns key_team_id ≡ some (byte g.config.team_id)
    has_color : view h game_ns key_color ≡ some (word g.config.color_rgb)
    has_name : view h game_ns key_device_name ≡ some (text g.config.device_name)

  writes-HasIds :
      (write_u8 nvs game_ns key_device_id device f).0 ≡ true
      → (write_u8 nvs game_ns key_player_id player f1).0 ≡ true
      → (write_u8 nvs game_ns key_team_id g.config.team_id f2).0 ≡ true
      → (write_u32 nvs game_ns key_color g.config.color_rgb f3).0 ≡ true
      → (write_str nvs game_ns key_device_name g.config.device_name f4).0 ≡ true
      → HasIds f5
  unfolding write_u8 write_u32 write_str str_eq
  writes-HasIds ok1 ok2 ok3 ok4 ok5 = record {
    has_device =
        w5 key_device_id
        ∙ w4 key_device_id
        ∙ w3 key_device_id
        ∙ w2 key_device_id
        ∙ w1 key_device_id;
    has_player = w5 key_player_id ∙ w4 key_player_id ∙ w3 key_player_id ∙ w2 key_player_id;
    has_team = w5 key_team_id ∙ w4 key_team_id ∙ w3 key_team_id;
    has_color = w5 key_color ∙ w4 key_color;
    has_name = w5 key_device_name;
  }
    where
      w1 :
          (k : Bytes)
          → view f1 game_ns k
            ≡ (if str_eq key_device_id k then some (byte device) else view f game_ns k)
      w1 k = write_item-view nvs game_ns key_device_id (byte device) f game_ns k ok1

      w2 :
          (k : Bytes)
          → view f2 game_ns k
            ≡ (if str_eq key_player_id k then some (byte player) else view f1 game_ns k)
      w2 k = write_item-view nvs game_ns key_player_id (byte player) f1 game_ns k ok2

      w3 :
          (k : Bytes)
          → view f3 game_ns k
            ≡ (if str_eq key_team_id k then some (byte g.config.team_id) else view f2 game_ns k)
      w3 k = write_item-view nvs game_ns key_team_id (byte g.config.team_id) f2 game_ns k ok3

      w4 :
          (k : Bytes)
          → view f4 game_ns k
            ≡ (if str_eq key_color k then some (word g.config.color_rgb) else view f3 game_ns k)
      w4 k = write_item-view nvs game_ns key_color (word g.config.color_rgb) f3 game_ns k ok4

      w5 :
          (k : Bytes)
          → view f5 game_ns k ≡ (
              if str_eq key_device_name k
              then some (text g.config.device_name)
              else view f4 game_ns k)
      w5 k =
          write_item-view nvs game_ns key_device_name (text g.config.device_name) f4 game_ns k ok5

  save_ids-HasIds :
      (save_ids nvs f g).0 ≡ true → 0 < length g.config.device_name → HasIds (save_ids nvs f g).1
  unfolding save_ids
  save_ids-HasIds ok named =
      let test : ltb 0 (length g.config.device_name) ≡ true = lt→ltb _ _ named in
      let (ok1, (ok2, (ok3, (ok4, ok5)))) = and4 _ _ _ _ _ (rw (test, save_name) at ok) in
      rw test (writes-HasIds ok1 ok2 ok3 ok4 ok5)

  load_of_HasIds :
      (h : Flash) (g' : Vars)
      → HasIds h
      → length g.config.device_name < 32
      → load_ids nvs h g' ≡ (
        true,
        record g' {
          config = record g.config {
            device_id = device;
            player_id = player;
            role = g'.config.role;
          };
        },
      )
  unfolding load_ids
  load_of_HasIds h g' has short = rw (
    read_u8-view nvs game_ns key_device_id h,
    has.has_device,
    read_u8-view nvs game_ns key_player_id h,
    has.has_player,
    read_u8-view nvs game_ns key_team_id h,
    has.has_team,
    read_u32-view nvs game_ns key_color h,
    has.has_color,
    read_str-view nvs game_ns key_device_name 32 h,
    has.has_name,
    lt→ltb _ _ short,
    le→not_ltb 63 device (omega (arith, bit_and_low6 g.config.device_id)),
    le→not_ltb 31 player (omega (arith, bit_and_low5 g.config.player_id)),
    take_all 31 g.config.device_name (omega arith),
  )

  -- If saving succeeds and the name is 1 to 31 bytes long, loading from the flash afterwards gives
  -- any configuration the saved identifiers, team, colour and name, and keeps its role.
  pub load_ids-save_ids :
      (g' : Vars)
      → (save_ids nvs f g).0 ≡ true
      → 0 < length g.config.device_name
      → length g.config.device_name < 32
      → load_ids nvs (save_ids nvs f g).1 g' ≡ (
        true,
        record g' { config = record (save_ids nvs f g).2.config { role = g'.config.role } },
      )
  unfolding save_ids
  load_ids-save_ids g' ok named short =
      load_of_HasIds (save_ids nvs f g).1 g' (save_ids-HasIds ok named) short
