-- ===== src/EspNow/AddPeer.antt =====
-- What one call of the driver to add a peer does to the peers (esp32/shared/src/espnow_comm.cpp).
use ray_z.EspNow.{
  EspErr, EspnowComm, PeerInfo, Radio, esp_exist, esp_fail, esp_invalid_arg, esp_ok,
  espnow_comm_add_peer, is_ok,
}
use ray_z.Prelude.{
  Bool, Bool-cases, Bytes, ap, arith, eq_of_str_eq, false, inl, inr, refl, str_eq, true, ◌||◌, ◌∙◌,
  ◌≡◌, ◌≢◌, ◌⊎◌,
}

or_absorbs : (a b : Bool) → (a ≡ true → b ≡ true) → b ≡ (a || b)
or_absorbs true b h = h refl
or_absorbs false b h = refl

pub or_true : (a : Bool) → (a || true) ≡ true
or_true true = refl
or_true false = refl

pub is_ok_not : (e : EspErr) → e ≢ esp_ok → is_ok e ≡ false
is_ok_not esp_ok h = absurd (h refl)
is_ok_not esp_exist h = refl
is_ok_not esp_fail h = refl
is_ok_not esp_invalid_arg h = refl

pub ok_cases : (e : EspErr) → (e ≡ esp_ok) ⊎ (e ≢ esp_ok)
ok_cases esp_ok = inl refl
ok_cases esp_exist = inr (λ h. cc)
ok_cases esp_fail = inr (λ h. cc)
ok_cases esp_invalid_arg = inr (λ h. cc)

module _ (esp_now : Radio) where
  open esp_now use {Air, is_peer_exist, esp_now_add_peer}

  library_other :
      (p : PeerInfo) (other : Bytes) (s : Air)
      → str_eq other p.peer_addr ≡ false
      → is_peer_exist (esp_now_add_peer p s).1 other ≡ is_peer_exist s other
  library_other p other s apart = elim (ok_cases (esp_now_add_peer p s).0) [
    | inl done ↦ esp_now.add_peer_ok p s other done ∙ rw apart refl
    | inr failed ↦ esp_now.add_peer_failed p s other failed
  ]

  -- Only the address itself can become a peer.
  pub add_peer_other :
      (mac other : Bytes) (e : EspnowComm) (s : Air)
      → str_eq other mac ≡ false
      → is_peer_exist (espnow_comm_add_peer esp_now mac e s).2 other ≡ is_peer_exist s other
  unfolding espnow_comm_add_peer
  add_peer_other mac other e s apart =
      let p : PeerInfo = record {
        peer_addr = mac;
        peer_channel = e.espnow_channel;
        encrypt = false;
      } in
      elim (Bool-cases (is_peer_exist s mac)) [
        | inl old ↦ rw old refl
        | inr new ↦ rw new (library_other p other s apart)
      ]

  -- What a call of the driver does to the peers, by what it returns.
  pub add_peer_taken :
      (mac other : Bytes) (e : EspnowComm) (s : Air)
      → (espnow_comm_add_peer esp_now mac e s).0 ≡ esp_ok
      → is_peer_exist (espnow_comm_add_peer esp_now mac e s).2 other
        ≡ (str_eq other mac || is_peer_exist s other)
  unfolding espnow_comm_add_peer
  add_peer_taken mac other e s ok =
      let p : PeerInfo = record {
        peer_addr = mac;
        peer_channel = e.espnow_channel;
        encrypt = false;
      } in
      elim (Bool-cases (is_peer_exist s mac)) [
        | inl old ↦ rw old (
            or_absorbs (str_eq other mac) (is_peer_exist s other)
              (λ same. ap (λ m. is_peer_exist s m) (eq_of_str_eq other mac same) ∙ old))
        | inr new ↦ rw new (esp_now.add_peer_ok p s other (ground (arith, ok, new)))
      ]

  pub add_peer_refused :
      (mac : Bytes) (e : EspnowComm) (s : Air)
      → (espnow_comm_add_peer esp_now mac e s).0 ≢ esp_ok
      → (is_peer_exist s mac ≡ false)
        × ((other : Bytes)
            → is_peer_exist (espnow_comm_add_peer esp_now mac e s).2 other ≡ is_peer_exist s other)
  unfolding espnow_comm_add_peer
  add_peer_refused mac e s bad =
      let p : PeerInfo = record {
        peer_addr = mac;
        peer_channel = e.espnow_channel;
        encrypt = false;
      } in
      elim (Bool-cases (is_peer_exist s mac)) [
        | inl old ↦ absurd (bad (rw old refl))
        | inr new ↦
            rw new (
              refl,
              λ other. esp_now.add_peer_failed p s other (λ ok. bad (ground (arith, ok, new))),
            )
      ]

  pub add_peer_keeps :
      (mac other : Bytes) (e : EspnowComm) (s : Air)
      → is_peer_exist s other ≡ true
      → is_peer_exist (espnow_comm_add_peer esp_now mac e s).2 other ≡ true
  add_peer_keeps mac other e s old = elim (ok_cases (espnow_comm_add_peer esp_now mac e s).0) [
    | inl ok ↦ add_peer_taken mac other e s ok ∙ rw old (or_true (str_eq other mac))
    | inr bad ↦ (add_peer_refused mac e s bad).1 other ∙ old
  ]
