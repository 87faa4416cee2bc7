-- ===== src/ResetButton.antt =====
-- The reset button: esp32/shared/src/gpio_init.cpp at the start, and the monitor in
-- esp32/target/src/main.cpp. A reading of the pin is `true` if the button is down.
pub mod Held
use ray_z.Events.{DmEvent, evt_factory_reset}
use ray_z.HttpApi.{Network, wifi_manager_factory_reset}
use ray_z.NvsStore.{Nvs}
use ray_z.Prelude.{
  Bool, List, Option, [], if◌then◌else◌, leb, ltb, none, not, some, suc, zero, ℕ, ◌%◌, ◌&&◌, ◌*◌,
  ◌++◌, ◌+◌, ◌/◌, ◌∷◌,
}

abbrev pub hold_ms : ℕ
hold_ms = 3000

abbrev pub poll_ms : ℕ
poll_ms = 50

-- The loop while the button is down, from its reading `i` on: the events that it posts, and `held` at
-- its end. The first argument is above the number of rounds.
unfoldable pub hold_loop : ℕ → (ℕ → Bool) → ℕ → ℕ → List DmEvent × ℕ
hold_loop zero down i held = ([], held)
hold_loop (suc k) down i held =
    let now = held + poll_ms in
    let (events, last) = hold_loop k down (suc i) now in
    if down i && ltb held hold_ms
    then (evt_factory_reset (now * 100 / hold_ms % 256) ∷ events, last)
    else ([], held)

module _ (nvs : Nvs) where
  open nvs use {Flash}

  -- One round of the monitor, the reading 0 being the first: the events, and the flash and the
  -- variables after a factory reset, which restarts the device, if there is one.
  unfoldable pub reset_button_round :
      (ℕ → Bool) → Flash → Network → List DmEvent × Option (Flash × Network)
  reset_button_round down f net =
      let (events, held) = hold_loop 61 down 1 0 in
      if not (down 0)
      then ([], none)
      else if leb hold_ms held
      then (events, some (wifi_manager_factory_reset nvs f net))
      else (events ++ (evt_factory_reset 0 ∷ []), none)

  -- The check at the start, with the readings before and after a wait of 2 s.
  unfoldable pub check_factory_reset : Bool → Bool → Flash → Network → Option (Flash × Network)
  check_factory_reset first second f net =
      if first then if second then some (wifi_manager_factory_reset nvs f net) else none else none
