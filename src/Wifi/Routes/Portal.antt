-- ===== src/Wifi/Routes/Portal.antt =====
-- What a request reaches (esp32/shared/src/wifi_http.cpp, http_api.cpp and ws_server.cpp).
use ray_z.Dns.{dns_ans_suffix}
use ray_z.Prelude.{
  Bool, Bytes, List, Option, codes, if◌then◌else◌, none, refl, some, str_eq, true, ◌&&◌, ◌∷◌, ◌≡◌,
  [], arith, false, ap, ◌++◌, ◌∙◌, digits_from, print_number, take,
}
use ray_z.Wifi.Routes.{
  Answering, HttpLib, Httpd, Method, Route, by_captive_redirect, by_config_post, by_root_get,
  by_scan_get, http_get, http_post, same_method, wifi_start_http_server, by_clean_post,
  by_peers_get, by_peers_post, by_status_get, by_ws_handler, catch_all, cfg_uri, has_no_wildcard,
  root_uri, scan_uri, cln_uri, http_api_start, peers_uri_get, peers_uri_post, status_uri,
  ws_server_register, ws_uri, captive_location,
}
use ray_z.Wifi.Start.{print_ip}

-- What answers a request, if anything does.
abbrev pub reaches : HttpLib → Option Httpd → Method → Bytes → Option Answering
reaches lib none m path = none
reaches lib (some server) m path = lib.find server.wildcard server.routes m path

abbrev NoWildcards : List Route → Type 0
NoWildcards [] = Unit {0}
NoWildcards (r ∷ rs) = (has_no_wildcard r.uri ≡ true) × NoWildcards rs

-- The first route of the method and the path.
abbrev first_route : List Route → Method → Bytes → Option Answering → Option Answering
first_route [] m path other = other
first_route (r ∷ rs) m path other =
    if same_method r.method m && str_eq r.uri path
    then some r.handler
    else first_route rs m path other

module _ (lib : HttpLib) where
  find_plain :
      (w : Bool) (rs more : List Route) (m : Method) (path : Bytes)
      → NoWildcards rs
      → lib.find w (rs ++ more) m path ≡ first_route rs m path (lib.find w more m path)
  find_plain w [] more m path plain = refl
  find_plain w (r ∷ rs) more m path plain =
      rw
        (
          lib.find_first w r (rs ++ more) m path,
          lib.fits_plain w r.uri path plain.0,
          find_plain w rs more m path plain.1,
        )
        refl

  find_catch_all :
      (m : Method) (s : Bytes)
      → lib.find true (catch_all ∷ []) m (b'/' ∷ s)
        ≡ (if same_method http_get m then some by_captive_redirect else none)
  find_catch_all m s =
      rw
        (
          lib.find_first true catch_all [] m (b'/' ∷ s),
          lib.fits_all s,
          lib.find_nil true m (b'/' ∷ s),
        )
        (ground arith)

  -- While the access point is up, every page that is asked for is the form, the list of networks or
  -- a redirection to the form, at the address that the name server answers with, and nothing is
  -- accepted but the form.
  pub portal_lem :
      (s : Bytes)
      → let path = b'/' ∷ s in
        let server = wifi_start_http_server true true in
        (reaches lib server http_get path ≡ (
          if str_eq (codes "/") path
          then some by_root_get
          else if str_eq (codes "/scan") path
          then some by_scan_get
          else some by_captive_redirect))
        × (reaches lib server http_post path
            ≡ (if str_eq (codes "/config") path then some by_config_post else none))
        × (dns_ans_suffix ≡ take 12 dns_ans_suffix ++ (192 ∷ 168 ∷ 4 ∷ 1 ∷ []))
        × (captive_location ≡ codes "http://" ++ (print_ip 192 168 4 1 ++ codes "/"))
  unfolding wifi_start_http_server captive_location print_ip print_number digits_from
  portal_lem s =
      let path = b'/' ∷ s in
      let plain = root_uri ∷ cfg_uri ∷ scan_uri ∷ [] in
      let at =
        λ (m : Method). find_plain true plain (catch_all ∷ []) m path (refl, (refl, (refl, tt))) in
      (
        at http_get ∙ ap (first_route plain http_get path) (find_catch_all http_get s),
        at http_post ∙ ap (first_route plain http_post path) (find_catch_all http_post s),
        refl,
        refl,
      )

  -- In station mode the six routes of the three components are reached under their paths, and nothing
  -- else is.
  pub station_lem :
      (path : Bytes)
      → let server = ws_server_register (http_api_start (wifi_start_http_server false true)) in
        (reaches lib server http_get path ≡ (
          if str_eq (codes "/") path
          then some by_root_get
          else if str_eq (codes "/api/status") path
          then some by_status_get
          else if str_eq (codes "/api/peers") path
          then some by_peers_get
          else if str_eq (codes "/ws") path
          then some by_ws_handler
          else none))
        × (reaches lib server http_post path ≡ (
            if str_eq (codes "/clean") path
            then some by_clean_post
            else if str_eq (codes "/api/peers") path
            then some by_peers_post
            else none))
  unfolding wifi_start_http_server http_api_start ws_server_register
  station_lem path =
      let rs = root_uri ∷ cln_uri ∷ status_uri ∷ peers_uri_get ∷ peers_uri_post ∷ ws_uri ∷ [] in
      let plain : NoWildcards rs = (refl, (refl, (refl, (refl, (refl, (refl, tt)))))) in
      let at = λ (m : Method).
        find_plain false rs [] m path plain
        ∙ ap (first_route rs m path) (lib.find_nil false m path) in
      (at http_get, at http_post)
