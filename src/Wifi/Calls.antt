-- ===== src/Wifi/Calls.antt =====
-- Counting the calls of the driver (esp32/shared/src/wifi_core.cpp), and the adjustments of its
-- configuration, which no count reads.
use ray_z.Prelude.{
  List, Option, [], arith, false, none, refl, some, true, ℕ, ◌+◌, ◌++◌, ◌∷◌, ◌≡◌, Bool,
  if◌then◌else◌,
}
use ray_z.Wifi.{
  DriverCall, StaConfig, clear_bssid_lock, wifi_relax_auth_config, task_delay, wifi_set_config,
  no_bssid, Link, Replies, wifi_connect, wifi_restore,
}

-- Number of a kind of call, or of milliseconds, in a list of calls.
unfoldable pub total : (DriverCall → ℕ) → List DriverCall → ℕ
total weight [] = 0
total weight (c ∷ cs) = weight c + total weight cs

abbrev pub is_restore : DriverCall → ℕ
is_restore wifi_restore = 1
is_restore _ = 0

abbrev pub is_connect : DriverCall → ℕ
is_connect wifi_connect = 1
is_connect _ = 0

abbrev pub waited : DriverCall → ℕ
waited (task_delay ms) = ms
waited _ = 0

pub total-++ :
    (weight : DriverCall → ℕ) (cs ds : List DriverCall)
    → total weight (cs ++ ds) ≡ total weight cs + total weight ds
unfolding total
total-++ weight [] ds = grind arith
total-++ weight (c ∷ cs) ds = grind (arith, total-++ weight cs ds)

-- A weight that ignores the settings of the configuration.
unfoldable pub Plain : (DriverCall → ℕ) → Type 0
Plain weight = (conf : StaConfig) → weight (wifi_set_config conf) ≡ 0

abbrev no_config : StaConfig
no_config = record {
  ssid = [];
  password = [];
  open_auth = false;
  pmf_capable = false;
  pmf_required = false;
  bssid_set = false;
  bssid = [];
  all_channels = false;
  by_signal = false;
}

module _ (weight : DriverCall → ℕ) (plain : Plain weight) where
  total-if_config :
      (b : Bool) (conf : StaConfig) → total weight (if b then wifi_set_config conf ∷ [] else []) ≡ 0
  unfolding Plain total
  total-if_config false conf = refl
  total-if_config true conf = let none_counted = plain conf in omega arith

  total-clear_bssid_lock :
      (b : Bool) (conf : Option StaConfig)
      → total weight (if b then clear_bssid_lock conf else []) ≡ 0
  unfolding clear_bssid_lock
  total-clear_bssid_lock false conf = total-if_config false no_config
  total-clear_bssid_lock true none = total-if_config false no_config
  total-clear_bssid_lock true (some conf) =
      total-if_config conf.bssid_set (record conf { bssid_set = false; bssid = no_bssid })

  total-wifi_relax_auth_config :
      (b : Bool) (conf : Option StaConfig)
      → total weight (if b then wifi_relax_auth_config conf else []) ≡ 0
  unfolding wifi_relax_auth_config
  total-wifi_relax_auth_config false conf = total-if_config false no_config
  total-wifi_relax_auth_config true none = total-if_config false no_config
  total-wifi_relax_auth_config true (some conf) = total-if_config true (record conf {
    open_auth = true;
    pmf_capable = true;
    pmf_required = false;
    bssid_set = false;
    bssid = no_bssid;
  })

  total-adjustments :
      (b relax : Bool) (r : Replies) (cs : List DriverCall)
      → total weight (
          (if b then clear_bssid_lock r.early_config else [])
          ++ (if relax then wifi_relax_auth_config r.relax_config else [])
          ++ cs)
        ≡ total weight cs
  total-adjustments b relax r cs =
      let early = if b then clear_bssid_lock r.early_config else [] in
      let relaxed = if relax then wifi_relax_auth_config r.relax_config else [] in
      omega (
        arith,
        total-++ weight (early ++ relaxed) cs,
        total-++ weight early relaxed,
        total-clear_bssid_lock b r.early_config,
        total-wifi_relax_auth_config relax r.relax_config,
      )

  pub total-adjusted :
      (going b relax : Bool) (r : Replies) (cs ds : List DriverCall) (x y : Link)
      → total weight
          (if◌then◌else◌ {A = List DriverCall × Link} going
            (
              (if b then clear_bssid_lock r.early_config else [])
                  ++ (if relax then wifi_relax_auth_config r.relax_config else [])
                  ++ cs,
              x,
            )
            (ds, y)).0
        ≡ total weight (if going then cs else ds)
  total-adjusted false b relax r cs ds x y = refl
  total-adjusted true b relax r cs ds x y = total-adjustments b relax r cs
