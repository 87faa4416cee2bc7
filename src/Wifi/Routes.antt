-- ===== src/Wifi/Routes.antt =====
-- Which handlers the HTTP server has, esp32/shared/src/wifi_http.cpp, with those that
-- esp32/shared/src/http_api.cpp and ws_server.cpp add, and the redirection of the captive portal.
pub mod Portal
use ray_z.Prelude.{
  Bool, Bytes, List, Option, [], codes, false, if◌then◌else◌, none, not, some, str_eq, true, ◌&&◌,
  ◌++◌, ◌==◌, ◌||◌, ◌∷◌, ◌≡◌,
}

pub data Method : Type 0 where
  http_get http_post : Method

-- The functions that answer requests.
pub data Answering : Type 0 where
  by_root_get by_config_post by_scan_get by_captive_redirect by_clean_post : Answering
  by_status_get by_peers_get by_peers_post by_ws_handler : Answering

-- `httpd_uri_t`.
pub record Route : Type 0 where
  pub uri : Bytes
  pub method : Method
  pub handler : Answering

-- A server that runs: whether it matches paths with `httpd_uri_match_wildcard`, and what is
-- registered, in this order.
pub record Httpd : Type 0 where
  pub wildcard : Bool
  pub routes : List Route

abbrev pub root_uri : Route
root_uri = record { uri = codes "/"; method = http_get; handler = by_root_get }

abbrev pub cfg_uri : Route
cfg_uri = record { uri = codes "/config"; method = http_post; handler = by_config_post }

abbrev pub scan_uri : Route
scan_uri = record { uri = codes "/scan"; method = http_get; handler = by_scan_get }

abbrev pub catch_all : Route
catch_all = record { uri = codes "/*"; method = http_get; handler = by_captive_redirect }

abbrev pub cln_uri : Route
cln_uri = record { uri = codes "/clean"; method = http_post; handler = by_clean_post }

abbrev pub status_uri : Route
status_uri = record { uri = codes "/api/status"; method = http_get; handler = by_status_get }

abbrev pub peers_uri_get : Route
peers_uri_get = record { uri = codes "/api/peers"; method = http_get; handler = by_peers_get }

abbrev pub peers_uri_post : Route
peers_uri_post = record { uri = codes "/api/peers"; method = http_post; handler = by_peers_post }

abbrev pub ws_uri : Route
ws_uri = record { uri = codes "/ws"; method = http_get; handler = by_ws_handler }

-- `started` is whether the library could start the server.
unfoldable pub wifi_start_http_server : Bool → Bool → Option Httpd
wifi_start_http_server provisioning_mode started =
    if started
    then some (record {
      wildcard = provisioning_mode;
      routes =
          root_uri
          ∷ (if provisioning_mode then cfg_uri ∷ scan_uri ∷ catch_all ∷ [] else cln_uri ∷ []);
    })
    else none

abbrev pub add_routes : List Route → Option Httpd → Option Httpd
add_routes rs none = none
add_routes rs (some server) = some (record server { routes = server.routes ++ rs })

unfoldable pub http_api_start : Option Httpd → Option Httpd
http_api_start server = add_routes (status_uri ∷ peers_uri_get ∷ peers_uri_post ∷ []) server

-- The initialisation, if it was not done, is that of the table of clients.
unfoldable pub ws_server_register : Option Httpd → Option Httpd
ws_server_register server = add_routes (ws_uri ∷ []) server

-- The header `Location` of the redirection.
unfoldable pub captive_location : Bytes
captive_location = codes "http://192.168.4.1/"

abbrev pub has_no_wildcard : Bytes → Bool
has_no_wildcard [] = true
has_no_wildcard (c ∷ s) = not (c == b'*' || c == b'?') && has_no_wildcard s

abbrev pub same_method : Method → Method → Bool
same_method http_get http_get = true
same_method http_post http_post = true
same_method m n = false

-- The HTTP library, as it documents the choice of a handler: the first one registered whose method
-- and path fit. A path without wildcards fits itself only, and with the wildcard matcher `/*` fits
-- every path, all of which begin with a slash.
pub record HttpLib : Type 0 where
  pub find : Bool → List Route → Method → Bytes → Option Answering
  pub fits : Bool → Bytes → Bytes → Bool
  pub find_nil : (w : Bool) (m : Method) (path : Bytes) → find w [] m path ≡ none
  pub find_first :
      (w : Bool) (r : Route) (rs : List Route) (m : Method) (path : Bytes)
      → find w (r ∷ rs) m path
        ≡ (if same_method r.method m && fits w r.uri path then some r.handler else find w rs m path)
  pub fits_plain :
      (w : Bool) (pattern path : Bytes)
      → has_no_wildcard pattern ≡ true
      → fits w pattern path ≡ str_eq pattern path
  pub fits_all : (s : Bytes) → fits true (codes "/*") (b'/' ∷ s) ≡ true
