-- ===== src/Wifi/Provision/Stored.antt =====
-- From the submitted form to the station that the device starts as after its restart
-- (esp32/shared/src/wifi_http.cpp and wifi_core.cpp).
use ray_z.NvsStore.{Nvs, text, write_str}
use ray_z.NvsStore.Stored.{write_item-view, read_str-view}
use ray_z.Prelude.{
  Bytes, codes, take, ℕ, ◌++◌, ◌-◌, ◌≡◌, arith, some, ◌∷◌, Bool, false, if◌then◌else◌, refl, str_eq,
  true, ◌&&◌, ◌∙◌, length, not, str_eq_self, ◌<◌, [], ap, length-take, suc, take_all, ◌≤◌, Option,
  none, is_empty,
}
use ray_z.Wifi.{wifi_max_pass_len, wifi_max_ssid_len}
use ray_z.Wifi.Provision.{
  extract, c_text, find_after, wifi_ns, write_if, key_name, key_pass, key_ssid, station, store_form,
  wifi_evaluate_boot_mode, key_role, boot_provisioning, config_post_handler, restart, stored_page,
  BootMode, bad_request, boot_sta,
}
use ray_z.Wifi.Provision.Search.{
  Lacks, find_after-append, Lacks-append, c_text_all, find_after-behind, until_amp-append,
}

-- A text as a field of the form: no `&`, no `=` and no NUL.
pub record IsValue (s : Bytes) : Type 0 where
  pub no_amp : Lacks b'&' s
  pub no_eq : Lacks b'=' s
  pub no_nul : Lacks 0 s

-- The body that the form sends, in the order of its inputs.
abbrev pub form : Bytes → Bytes → Bytes → Bytes
form ssid pass name =
    codes "ssid=" ++ (ssid ++ (codes "&pass=" ++ (pass ++ (codes "&name=" ++ name))))

extract_found :
    (key : Bytes) (max : ℕ) (buf value rest : Bytes)
    → find_after key buf ≡ some (value ++ (b'&' ∷ rest))
    → IsValue value
    → extract key max buf ≡ take (max - 1) value
unfolding extract
extract_found key max buf value rest found v = ground (arith, until_amp-append value rest v.no_amp)

extract_ssid :
    (max : ℕ) (s p n : Bytes)
    → IsValue s
    → extract (codes "ssid=") max (form s p n) ≡ take (max - 1) s
extract_ssid max s p n v =
    let rest : Bytes = codes "pass=" ++ (p ++ (codes "&name=" ++ n)) in
    extract_found (codes "ssid=") max (form s p n) s rest
      (find_after-append b's' (codes "sid=") (s ++ (b'&' ∷ rest))) v

find_after_pass :
    (s rest : Bytes)
    → IsValue s
    → find_after (codes "pass=") (codes "ssid=" ++ (s ++ (codes "&pass=" ++ rest))) ≡ some rest
unfolding find_after
find_after_pass s rest v = find_after-behind b'p' b'a' b's' b's' s rest v.no_eq (omega arith)

extract_pass :
    (max : ℕ) (s p n : Bytes)
    → IsValue s
    → IsValue p
    → extract (codes "pass=") max (form s p n) ≡ take (max - 1) p
extract_pass max s p n v w =
    extract_found (codes "pass=") max (form s p n) p (codes "name=" ++ n)
      (find_after_pass s (p ++ (codes "&name=" ++ n)) v) w

form_text : (s p n : Bytes) → IsValue s → IsValue p → IsValue n → c_text (form s p n) ≡ form s p n
form_text s p n v w u =
    let tail : Bytes = codes "&name=" ++ n in
    let tail_lacks : Lacks 0 tail = Lacks-append 0 (codes "&name=") n (omega arith) u.no_nul in
    let pass_lacks : Lacks 0 (p ++ tail) = Lacks-append 0 p tail w.no_nul tail_lacks in
    let mid : Bytes = codes "&pass=" ++ (p ++ tail) in
    let mid_lacks : Lacks 0 mid =
      Lacks-append 0 (codes "&pass=") (p ++ tail) (omega arith) pass_lacks in
    c_text_all (form s p n) (
      Lacks-append 0 (codes "ssid=") (s ++ mid) (omega arith)
        (Lacks-append 0 s mid v.no_nul mid_lacks))

module _ (nvs : Nvs) where
  open nvs use {Flash, view}

  -- The write, if it is made, reports no error.
  abbrev pub WrittenIf : Bool → Bytes → Bytes → Flash → Type 0
  WrittenIf b key v f = b ≡ true → (write_str nvs wifi_ns key v f).0 ≡ true

  -- None of the writes that store the form reports an error.
  abbrev pub FormStored : Bytes → Flash → Type 0
  FormStored buf f =
      let ssid = extract (codes "ssid=") wifi_max_ssid_len buf in
      let pass = extract (codes "pass=") wifi_max_pass_len buf in
      let name = extract (codes "name=") 32 buf in
      let role = extract (codes "role=") 12 buf in
      let f1 = write_if nvs true key_ssid ssid f in
      let f2 = write_if nvs true key_pass pass f1 in
      let f3 = write_if nvs (not (is_empty name)) key_name name f2 in
      WrittenIf true key_ssid ssid f
      × WrittenIf true key_pass pass f1
      × WrittenIf (not (is_empty name)) key_name name f2
      × WrittenIf (not (is_empty role)) key_role role f3

  view-write_if :
      (b : Bool) (key v : Bytes) (f : Flash) (key' : Bytes)
      → WrittenIf b key v f
      → view (write_if nvs b key v f) wifi_ns key'
        ≡ (if b && str_eq key key' then some (text v) else view f wifi_ns key')
  unfolding write_if write_str
  view-write_if false key v f key' ok = refl
  view-write_if true key v f key' ok =
      write_item-view nvs wifi_ns key (text v) f wifi_ns key' (ok refl)
      ∙ rw (str_eq_self wifi_ns) refl

  view-write_if_other :
      (b : Bool) (key v : Bytes) (f : Flash) (key' : Bytes)
      → WrittenIf b key v f
      → str_eq key key' ≡ false
      → view (write_if nvs b key v f) wifi_ns key' ≡ view f wifi_ns key'
  view-write_if_other b key v f key' ok apart = ground (arith, view-write_if b key v f key' ok)

  -- The name and the role are stored under other keys.
  view-store_form :
      (buf : Bytes) (f : Flash)
      → FormStored buf f
      → (view (store_form nvs buf f) wifi_ns key_ssid
          ≡ some (text (extract (codes "ssid=") wifi_max_ssid_len buf)))
        × (view (store_form nvs buf f) wifi_ns key_pass
            ≡ some (text (extract (codes "pass=") wifi_max_pass_len buf)))
  unfolding store_form str_eq
  view-store_form buf f ok =
      let ssid = extract (codes "ssid=") wifi_max_ssid_len buf in
      let pass = extract (codes "pass=") wifi_max_pass_len buf in
      let name = extract (codes "name=") 32 buf in
      let role = extract (codes "role=") 12 buf in
      let f1 = write_if nvs true key_ssid ssid f in
      let f2 = write_if nvs true key_pass pass f1 in
      let f3 = write_if nvs (not (is_empty name)) key_name name f2 in
      let others : (key' : Bytes)
          → str_eq key_role key' ≡ false
          → str_eq key_name key' ≡ false
          → view (store_form nvs buf f) wifi_ns key' ≡ view f2 wifi_ns key' =
        λ key' r n.
          view-write_if_other (not (is_empty role)) key_role role f3 key' ok.3 r
          ∙ view-write_if_other (not (is_empty name)) key_name name f2 key' ok.2 n in
      (
        others key_ssid refl refl
            ∙ view-write_if_other true key_pass pass f1 key_ssid ok.1 refl
            ∙ view-write_if true key_ssid ssid f key_ssid ok.0,
        others key_pass refl refl ∙ view-write_if true key_pass pass f1 key_pass ok.1,
      )

  boot_station :
      (f : Flash) (ssid pass : Bytes)
      → view f wifi_ns key_ssid ≡ some (text ssid)
      → view f wifi_ns key_pass ≡ some (text pass)
      → is_empty ssid ≡ false
      → length ssid < 32
      → length pass < 64
      → wifi_evaluate_boot_mode nvs f ≡ station ssid pass
  unfolding wifi_evaluate_boot_mode
  boot_station f ssid pass has_ssid has_pass full short_ssid short_pass =
      ground
        (arith, read_str-view nvs wifi_ns key_ssid 32 f, read_str-view nvs wifi_ns key_pass 64 f)

  take_ne : (n : ℕ) (s : Bytes) → 1 ≤ length s → is_empty (take (suc n) s) ≡ false
  take_ne n [] h = absurd (omega arith)
  take_ne n (c ∷ s) h = refl

  handled :
      (s p n : Bytes) (f : Flash)
      → IsValue s
      → IsValue p
      → IsValue n
      → 1 ≤ length s
      → length (form s p n) ≤ 255
      → config_post_handler nvs boot_provisioning (some (form s p n)) f
        ≡ (restart (stored_page (take 31 s)), store_form nvs (form s p n) f)
  unfolding config_post_handler
  handled s p n f v w u full fits = rw (
    take_all 255 (form s p n) fits,
    form_text s p n v w u,
    extract_ssid wifi_max_ssid_len s p n v,
    take_ne 30 s full,
  )

  -- A form that is submitted to the access point, with texts without &, = and NUL, an SSID that is
  -- not empty, and at most 255 bytes in all, is answered by a restart, after which the device
  -- starts as a station with the first 31 bytes of the SSID and the first 63 of the password, if
  -- none of the writes that store the form reports an error.
  pub provisioned :
      (s p n : Bytes) (f : Flash)
      → IsValue s
      → IsValue p
      → IsValue n
      → 1 ≤ length s
      → length (form s p n) ≤ 255
      → FormStored (form s p n) f
      → let (outcome, f') = config_post_handler nvs boot_provisioning (some (form s p n)) f in
        (outcome ≡ restart (stored_page (take 31 s)))
        × (wifi_evaluate_boot_mode nvs f' ≡ station (take 31 s) (take 63 p))
  provisioned s p n f v w u full fits ok =
      let (ssid, pass) = view-store_form (form s p n) f ok in
      rw (handled s p n f v w u full fits) (
        refl,
        boot_station (store_form nvs (form s p n) f) (take 31 s) (take 63 p)
            (ssid ∙ ap (λ t. some (text t)) (extract_ssid wifi_max_ssid_len s p n v))
            (pass ∙ ap (λ t. some (text t)) (extract_pass wifi_max_pass_len s p n v w))
            (take_ne 30 s full) (omega (arith, length-take 31 s)) (omega (arith, length-take 63 p)),
      )

-- A rejected request changes nothing in the flash, and nothing is stored unless the access point is
-- active and the first 255 bytes of the body name an SSID; then the four texts are.
pub config_post_handler_lem :
    (nvs : Nvs) (mode : BootMode) (received : Option Bytes) (f : nvs.Flash)
    → ((msg : Bytes)
        → (config_post_handler nvs mode received f).0 ≡ bad_request msg
        → (config_post_handler nvs mode received f).1 ≡ f)
      × ((page : Bytes)
          → (config_post_handler nvs mode received f).0 ≡ restart page
          → (mode ≡ boot_provisioning)
            × ((body : Bytes) × (received ≡ some body)
                × (is_empty (extract (codes "ssid=") 32 (c_text (take 255 body))) ≡ false)
                × ((config_post_handler nvs mode received f).1
                    ≡ store_form nvs (c_text (take 255 body)) f)))
unfolding config_post_handler
config_post_handler_lem nvs boot_sta received f = (λ msg h. refl, λ page h. cc)
config_post_handler_lem nvs boot_provisioning none f = (λ msg h. refl, λ page h. cc)
config_post_handler_lem nvs boot_provisioning (some body) f =
    (λ msg h. ground arith, λ page h. (refl, (body, refl, ground arith, ground arith)))
