-- ===== src/Tests/Portal.antt =====
-- A small HTTP library and a small mDNS library, and the device that uses them.
use ray_z.Dns.{dns_ans_suffix}
use ray_z.Mdns.{MdnsLib, MdnsVars, TxtItems}
use ray_z.Prelude.{
  Bool, Bool-cases, Bytes, List, Option, [], ap, arith, codes, eq_of_str_eq, false, if◌then◌else◌,
  inl, inr, none, refl, some, str_eq, sym, true, ◌&&◌, ◌||◌, ◌∙◌, ◌∷◌, ◌≡◌, take, ◌++◌,
}
use ray_z.Wifi.Routes.{
  Answering, HttpLib, Method, Route, by_captive_redirect, by_config_post, by_root_get, by_scan_get,
  has_no_wildcard, http_get, http_post, same_method, wifi_start_http_server, captive_location,
}
use ray_z.Wifi.Routes.Portal.{portal_lem, reaches}
use ray_z.Wifi.Start.{print_ip}

abbrev fitting : Bool → Bytes → Bytes → Bool
fitting w pattern path = (w && str_eq pattern (codes "/*")) || str_eq pattern path

abbrev first_fit : Bool → List Route → Method → Bytes → Option Answering
first_fit w [] m path = none
first_fit w (r ∷ rs) m path =
    if same_method r.method m && fitting w r.uri path then some r.handler else first_fit w rs m path

plain_fits :
    (w : Bool) (pattern path : Bytes)
    → has_no_wildcard pattern ≡ true
    → fitting w pattern path ≡ str_eq pattern path
plain_fits w pattern path plain = elim (Bool-cases (str_eq pattern (codes "/*"))) [
  | inr other ↦ ground (arith, other)
  | inl star ↦
      absurd
        (ground (arith, sym plain ∙ ap has_no_wildcard (eq_of_str_eq pattern (codes "/*") star)))
]

all_fit : (s : Bytes) → fitting true (codes "/*") (b'/' ∷ s) ≡ true
unfolding str_eq
all_fit s = refl

abbrev requests : HttpLib
requests = record {
  find = first_fit;
  fits = fitting;
  find_nil = λ w m path. refl;
  find_first = λ w r rs m path. refl;
  fits_plain = plain_fits;
  fits_all = all_fit;
}

portal_lem_example :
    let server = wifi_start_http_server true true in
    (reaches requests server http_get (codes "/hotspot") ≡ (
      if str_eq (codes "/") (codes "/hotspot")
      then some by_root_get
      else if str_eq (codes "/scan") (codes "/hotspot")
      then some by_scan_get
      else some by_captive_redirect))
    × (reaches requests server http_post (codes "/hotspot")
        ≡ (if str_eq (codes "/config") (codes "/hotspot") then some by_config_post else none))
    × (dns_ans_suffix ≡ take 12 dns_ans_suffix ++ (192 ∷ 168 ∷ 4 ∷ 1 ∷ []))
    × (captive_location ≡ codes "http://" ++ (print_ip 192 168 4 1 ++ codes "/"))
portal_lem_example = portal_lem requests (codes "hotspot")

-- The host name and the records of the service, if it was added.
abbrev look : Bytes × Option TxtItems → Option (Bytes × TxtItems)
look (host, none) = none
look (host, some items) = some (host, items)

abbrev put_txt : TxtItems → Bytes × Option TxtItems → Bool × (Bytes × Option TxtItems)
put_txt items (host, none) = (false, (host, none))
put_txt items (host, some old) = (true, (host, some items))

-- A second service of the kind is refused.
abbrev put_service : Bytes × Option TxtItems → Bool × (Bytes × Option TxtItems)
put_service (host, none) = (true, (host, some []))
put_service (host, some old) = (false, (host, some old))

added :
    (host : Bytes) (there : Option TxtItems)
    → (put_service (host, there)).0 ≡ true
    → look (put_service (host, there)).1 ≡ some (host, [])
added host none h = refl
added host (some old) h = absurd cc

put_txt_ok :
    (items old : TxtItems) (host : Bytes) (n : Bytes × Option TxtItems)
    → (put_txt items n).0 ≡ true
    → look n ≡ some (host, old)
    → look (put_txt items n).1 ≡ some (host, items)
put_txt_ok items old host (h, none) ok e = absurd cc
put_txt_ok items old host (h, some t) ok e = cc

put_txt_failed :
    (items : TxtItems) (n : Bytes × Option TxtItems)
    → (put_txt items n).0 ≡ false
    → look (put_txt items n).1 ≡ look n
put_txt_failed items (h, none) e = refl
put_txt_failed items (h, some t) e = absurd cc

abbrev local_net : MdnsLib
local_net = record {
  Net = Bytes × Option TxtItems;
  seen = look;
  mdns_init = λ n. (true, n);
  mdns_free = λ n. ([], none);
  hostname_set = λ host n. (true, (host, n.1));
  instance_name_set = λ name n. (true, n);
  service_add = λ port n. put_service n;
  service_txt_set = put_txt;
  service_remove = λ n. (n.0, none);
  free_seen = λ n. refl;
  init_seen = λ n. refl;
  txt_ok = put_txt_ok;
  txt_failed = put_txt_failed;
  add_seen = λ host name port n h k. added host n.1 k;
}

abbrev unnamed : MdnsVars
unnamed = record { instance_name = []; mdns_role = []; mdns_device_id = 0; mdns_player_id = 0 }
