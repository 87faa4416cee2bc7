-- ===== src/Wifi/Provision.antt =====
-- The provisioning form, esp32/shared/src/wifi_http.cpp, and the choice of the boot mode,
-- esp32/shared/src/wifi_core.cpp. A request body is the bytes that are there when `httpd_req_recv` is
-- called, which takes up to 255 of them; `none` is an error.
pub mod Search
pub mod Stored
pub mod Encoded
use ray_z.NvsStore.{Nvs, erase_namespace, read_str, write_str}
use ray_z.Prelude.{
  Bool, Bytes, Option, [], codes, copy_str, if◌then◌else◌, none, not, some, take, true, ℕ, ◌++◌,
  ◌-◌, ◌==◌, ◌∷◌, strip_prefix, is_empty,
}
use ray_z.Wifi.{or_empty, wifi_max_pass_len, wifi_max_ssid_len}

-- The text in a buffer: the bytes before the first NUL.
unfoldable pub c_text : Bytes → Bytes
c_text [] = []
c_text (c ∷ s) = if c == 0 then [] else c ∷ c_text s

-- `strstr(buf, key)`, then past the key.
unfoldable pub find_after : Bytes → Bytes → Option Bytes
unfolding strip_prefix
find_after key [] = strip_prefix key []
find_after key (c ∷ s) = elim (strip_prefix key (c ∷ s)) [
  | some r ↦ some r
  | none ↦ find_after key s
]

-- Up to the next `&`, or all.
unfoldable pub until_amp : Bytes → Bytes
until_amp [] = []
until_amp (c ∷ s) = if c == b'&' then [] else c ∷ until_amp s

-- The lambda `extract` on an output buffer of `max` zeros.
unfoldable pub extract : Bytes → ℕ → Bytes → Bytes
extract key max buf = elim (find_after key buf) [
  | none ↦ []
  | some p ↦ take (max - 1) (until_amp p)
]

pub data BootMode : Type 0 where
  boot_provisioning boot_sta : BootMode

-- What a handler of the HTTP server answers; `restart` is a page, and then `esp_restart`.
pub data Outcome : Type 0 where
  bad_request : Bytes → Outcome
  restart : Bytes → Outcome

abbrev pub wifi_ns : Bytes
wifi_ns = codes "wifi"

abbrev pub key_ssid : Bytes
key_ssid = codes "ssid"

abbrev pub key_pass : Bytes
key_pass = codes "pass"

abbrev pub key_name : Bytes
key_name = codes "name"

abbrev pub key_role : Bytes
key_role = codes "role"

unfoldable pub stored_page : Bytes → Bytes
stored_page ssid = copy_str 256 (
    codes "<html><body><h2>RayZ Provisioning</h2>"
    ++ codes "<p>Information stored. Trying to connect to wifi: <b>"
    ++ ssid
    ++ codes "</b></p>"
    ++ codes "<p>Device will now switch to station mode...</p></body></html>")

-- What the device starts after `wifi_evaluate_boot_mode`: a station with its credentials, or the
-- access point of the provisioning form.
pub data Started : Type 0 where
  station : Bytes → Bytes → Started
  access_point : Started

module _ (nvs : Nvs) where
  open nvs use {Flash}

  unfoldable pub write_if : Bool → Bytes → Bytes → Flash → Flash
  write_if b key v f = if b then (write_str nvs wifi_ns key v f).1 else f

  -- The four texts of the form are stored, whatever the writes report.
  unfoldable pub store_form : Bytes → Flash → Flash
  store_form buf f =
      let name = extract (codes "name=") 32 buf in
      let role = extract (codes "role=") 12 buf in
      let f1 = write_if true key_ssid (extract (codes "ssid=") wifi_max_ssid_len buf) f in
      let f2 = write_if true key_pass (extract (codes "pass=") wifi_max_pass_len buf) f1 in
      let f3 = write_if (not (is_empty name)) key_name name f2 in
      write_if (not (is_empty role)) key_role role f3

  unfoldable pub config_post_handler : BootMode → Option Bytes → Flash → Outcome × Flash
  config_post_handler boot_sta received f = (bad_request (codes "Already provisioned"), f)
  config_post_handler boot_provisioning none f = (bad_request (codes "No data"), f)
  config_post_handler boot_provisioning (some body) f =
      let buf = c_text (take 255 body) in
      let ssid = extract (codes "ssid=") wifi_max_ssid_len buf in
      if is_empty body
      then (bad_request (codes "No data"), f)
      else if is_empty ssid
      then (bad_request (codes "Missing SSID"), f)
      else (restart (stored_page ssid), store_form buf f)

  -- After the factory reset no page is sent.
  unfoldable pub clean_post_handler : BootMode → Flash → Outcome × Flash
  clean_post_handler boot_provisioning f = (bad_request (codes "Not in STA mode"), f)
  clean_post_handler boot_sta f = (restart [], (erase_namespace nvs wifi_ns f).1)

  unfoldable pub wifi_evaluate_boot_mode : Flash → Started
  wifi_evaluate_boot_mode f = elim (read_str nvs wifi_ns key_ssid wifi_max_ssid_len f) [
    | none ↦ access_point
    | some ssid ↦
        if is_empty ssid
        then access_point
        else station ssid (or_empty (read_str nvs wifi_ns key_pass wifi_max_pass_len f))
  ]
