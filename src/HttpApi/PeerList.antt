-- ===== src/HttpApi/PeerList.antt =====
-- A peer list from the request that stores it to the restart that loads it
-- (esp32/shared/src/http_api.cpp, wifi_manager.cpp and espnow_comm.cpp).
use ray_z.EspNow.{EspnowComm, Radio, espnow_comm_load_peers_from_csv}
use ray_z.EspNow.Peers.{known, length-cons, load_peers_lem, AreTaken}
use ray_z.EspNow.Tokens.{AreMacs, with_commas, le-length-with_commas, print_mac-AreTokens}
use ray_z.HttpApi.{
  Network, key_peers, load_peers_from_nvs, peers_post_handler, trim_newlines,
  wifi_manager_load_peer_list, wifi_manager_set_peer_list,
}
use ray_z.Mac.{print_byte, print_mac}
use ray_z.NvsStore.{Nvs, write_str, text}
use ray_z.NvsStore.Stored.{read_str-view, write_item-view}
use ray_z.Prelude.{
  AreBytes, Bytes, List, [], arith, length, map, refl, some, take, take_all, true, ℕ, ◌++◌, ◌<◌,
  ◌||◌, ◌∷◌, ◌≡◌, ◌≢◌, ◌≤◌, ◌⊎◌, ap, length-append, length-map, str_eq_self, ◌∙◌,
}
use ray_z.Wifi.Provision.{c_text, wifi_ns}

-- Characters above the space, so no line end and no NUL.
abbrev pub IsVisible : Bytes → Type 0
IsVisible [] = Unit {0}
IsVisible (c ∷ s) = (b' ' < c) × IsVisible s

abbrev pub AreNewlines : Bytes → Type 0
AreNewlines [] = Unit {0}
AreNewlines (c ∷ s) = ((c ≡ 10) ⊎ (c ≡ 13)) × AreNewlines s

IsVisible-append : (s t : Bytes) → IsVisible s → IsVisible t → IsVisible (s ++ t)
IsVisible-append [] t h k = k
IsVisible-append (c ∷ s) t h k = (h.0, IsVisible-append s t h.1 k)

print_byte-IsVisible : (b : ℕ) → b < 256 → IsVisible (print_byte b)
unfolding print_byte
print_byte-IsVisible b h = ground arith

print_mac-IsVisible : (m : Bytes) → AreBytes m → IsVisible (print_mac m)
unfolding print_mac
print_mac-IsVisible [] v = tt
print_mac-IsVisible (b ∷ []) v = print_byte-IsVisible b v.0
print_mac-IsVisible (b ∷ c ∷ m) v =
    IsVisible-append (print_byte b) (b':' ∷ print_mac (c ∷ m)) (print_byte-IsVisible b v.0)
      (omega arith, print_mac-IsVisible (c ∷ m) v.1)

with_commas-IsVisible : (ms : List Bytes) → AreMacs ms → IsVisible (with_commas (map print_mac ms))
unfolding with_commas
with_commas-IsVisible [] v = tt
with_commas-IsVisible (m ∷ []) v = print_mac-IsVisible m v.1
with_commas-IsVisible (m ∷ n ∷ ms) v =
    IsVisible-append (print_mac m) (b',' ∷ with_commas (map print_mac (n ∷ ms)))
      (print_mac-IsVisible m v.1) (omega arith, with_commas-IsVisible (n ∷ ms) v.2)

trim_all : (nl : Bytes) → AreNewlines nl → trim_newlines nl ≡ []
unfolding trim_newlines
trim_all [] h = refl
trim_all (c ∷ nl) h = ground (arith, trim_all nl h.1)

trim_newlines-append : (s nl : Bytes) → IsVisible s → AreNewlines nl → trim_newlines (s ++ nl) ≡ s
unfolding trim_newlines
trim_newlines-append [] nl h k = trim_all nl k
trim_newlines-append (c ∷ s) nl h k = rw (trim_newlines-append s nl h.1 k) (ground arith)

c_text_visible : (s : Bytes) → IsVisible s → c_text s ≡ s
unfolding c_text
c_text_visible [] h = refl
c_text_visible (c ∷ s) h = ground (arith, c_text_visible s h.1)

module _ (nvs : Nvs) (esp_now : Radio) where
  posted_text :
      (csv nl : Bytes)
      → IsVisible csv
      → AreNewlines nl
      → length (csv ++ nl) ≤ 255
      → c_text (trim_newlines (take 255 (csv ++ nl))) ≡ csv
  posted_text csv nl h k fits =
      rw (take_all 255 (csv ++ nl) fits, trim_newlines-append csv nl h k) (c_text_visible csv h)

  posted :
      (csv nl : Bytes) (f : nvs.Flash) (net : Network) (e : EspnowComm) (s : esp_now.Air)
      → IsVisible csv
      → AreNewlines nl
      → 1 ≤ length csv
      → length (csv ++ nl) ≤ 255
      → peers_post_handler nvs esp_now (some (csv ++ nl)) f net e s ≡ (
          let (_, e', s') = espnow_comm_load_peers_from_csv esp_now csv e s in
          (true, (write_str nvs wifi_ns key_peers csv f).1, record net { peer_list = csv }, e', s'))
  unfolding peers_post_handler wifi_manager_set_peer_list
  posted [] nl f net e s visible newlines full fits = absurd (omega arith)
  posted (c ∷ csv) nl f net e s visible newlines full fits =
      rw
        (
          posted_text (c ∷ csv) nl visible newlines fits,
          take_all 255 (c ∷ csv) (omega (arith, length-append csv nl)),
        )
        refl

  stored_list :
      (csv : Bytes) (f : nvs.Flash)
      → (write_str nvs wifi_ns key_peers csv f).0 ≡ true
      → nvs.view (write_str nvs wifi_ns key_peers csv f).1 wifi_ns key_peers ≡ some (text csv)
  unfolding write_str
  stored_list csv f ok =
      write_item-view nvs wifi_ns key_peers (text csv) f wifi_ns key_peers ok
      ∙ rw (str_eq_self wifi_ns, str_eq_self key_peers) refl

  loaded :
      (csv : Bytes) (f : nvs.Flash) (net : Network) (e : EspnowComm) (s : esp_now.Air)
      → nvs.view f wifi_ns key_peers ≡ some (text csv)
      → length csv ≤ 255
      → (load_peers_from_nvs nvs esp_now f net e s).2
        ≡ (espnow_comm_load_peers_from_csv esp_now csv e s).2
  unfolding load_peers_from_nvs wifi_manager_load_peer_list
  loaded csv f net e s has fits = ground (arith, read_str-view nvs wifi_ns key_peers 256 f)

  -- A list of at least one printed address, with commas between them and with line ends behind, in
  -- at most 255 bytes, is stored, and its addresses are peers at once; a device that starts again
  -- with that flash has them as peers when it has loaded the list. Both times no other address
  -- becomes a peer. The flash reports no error for this write, and both times each address of the
  -- list is a peer, or is accepted by the library, when its turn comes.
  pub peers_survive_restart :
      (ms : List Bytes) (nl : Bytes) (f : nvs.Flash) (net net2 : Network) (e e2 : EspnowComm)
      (s s2 : esp_now.Air)
      → (write_str nvs wifi_ns key_peers (with_commas (map print_mac ms)) f).0 ≡ true
      → AreMacs ms
      → ms ≢ []
      → AreNewlines nl
      → length (with_commas (map print_mac ms) ++ nl) ≤ 255
      → AreTaken esp_now ms e s
      → AreTaken esp_now ms e2 s2
      → let (stored, f1, _, _, s1) =
          peers_post_handler nvs esp_now (some (with_commas (map print_mac ms) ++ nl)) f net e s in
        let (_, _, s3) = load_peers_from_nvs nvs esp_now f1 net2 e2 s2 in
        (stored ≡ true)
        × ((m : Bytes) → esp_now.is_peer_exist s1 m ≡ (known ms m || esp_now.is_peer_exist s m))
        × ((m : Bytes) → esp_now.is_peer_exist s3 m ≡ (known ms m || esp_now.is_peer_exist s2 m))
  peers_survive_restart ms nl f net net2 e e2 s s2 ok macs some_mac newlines fits taken again =
      let csv = with_commas (map print_mac ms) in
      let listed = print_mac-AreTokens ms macs in
      let some_length = length-cons ms some_mac in
      let full : 1 ≤ length csv =
        omega (arith, le-length-with_commas (map print_mac ms) listed, length-map print_mac ms) in
      let short : length csv ≤ 255 = omega (arith, length-append csv nl) in
      let now = load_peers_lem esp_now ms e s macs some_mac short in
      let later = load_peers_lem esp_now ms e2 s2 macs some_mac short in
      let f1 = (write_str nvs wifi_ns key_peers csv f).1 in
      rw (posted csv nl f net e s (with_commas-IsVisible ms macs) newlines full fits) (
        refl,
        now.3 taken,
        λ m.
            ap (λ air. esp_now.is_peer_exist air m)
              (loaded csv f1 net2 e2 s2 (stored_list csv f ok) short)
            ∙ later.3 again m,
      )
