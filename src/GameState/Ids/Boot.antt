-- ===== src/GameState/Ids/Boot.antt =====
-- The identity after `game_state_init` (esp32/shared/src/game_state.cpp).
use ray_z.GameState.Config.{clamp, default_game_config, load_default_game_config}
use ray_z.GameState.Defs.{Vars, zero_state}
use ray_z.GameState.Ids.{game_ns, generate_ids, init, key_device_id}
use ray_z.GameState.Runtime.{reset_runtime}
use ray_z.NvsStore.{Nvs, byte}
use ray_z.NvsStore.Stored.{read_u8-view}
use ray_z.Prelude.{arith, false, inl, inr, none, some, true, ℕ, ◌<◌, ◌≡◌, ◌≤◌, ◌⊎◌}
use ray_z.Protocol.{DeviceRole, max_device_id}

module _ (nvs : Nvs) (role : DeviceRole) (random : ℕ) (f : nvs.Flash) (g : Vars) where
  open nvs use {view}

  -- Start-up without a stored device identifier, or with a stored one of 1 to 63, ends with a
  -- device identifier in that range: the stored one, if there is one. All hearts of the default
  -- configuration are there, and no game runs.
  pub init_device_id :
      (n : ℕ)
      → g.initialized ≡ false
      → (view f game_ns key_device_id ≡ none)
        ⊎ ((view f game_ns key_device_id ≡ some (byte n)) × (1 ≤ n) × (n ≤ max_device_id))
      → let (ok, g') = init nvs role true random f g in
        (ok ≡ true)
        × (g'.initialized ≡ true)
        × (1 ≤ g'.config.device_id)
        × (g'.config.device_id ≤ max_device_id)
        × (g'.state ≡ record zero_state { hearts_remaining = default_game_config.max_hearts })
        × (view f game_ns key_device_id ≡ some (byte n) → g'.config.device_id ≡ n)
  unfolding init generate_ids reset_runtime load_default_game_config clamp
  init_device_id n fresh stored = elim stored [
    | inl missing ↦
        let e = read_u8-view nvs game_ns key_device_id f in
        (
          ground arith,
          ground arith,
          ground arith,
          ground arith,
          ground arith,
          λ present. ground arith,
        )
    | inr (present, low, high) ↦
        let e = read_u8-view nvs game_ns key_device_id f in
        (
          ground arith,
          ground arith,
          ground arith,
          ground arith,
          ground arith,
          λ again. ground arith,
        )
  ]

  -- A stored device identifier above 63 is read as 0, after the generation of identifiers has
  -- already run: the device is left with the identifier 0.
  pub init_device_id_lost :
      (n : ℕ)
      → g.initialized ≡ false
      → view f game_ns key_device_id ≡ some (byte n)
      → max_device_id < n
      → (init nvs role true random f g).1.config.device_id ≡ 0
  unfolding init generate_ids reset_runtime
  init_device_id_lost n fresh present high =
      let e = read_u8-view nvs game_ns key_device_id f in ground arith
