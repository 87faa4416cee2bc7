-- ===== src/EspNow/Peers.antt =====
-- Which addresses are peers after a list was loaded (esp32/shared/src/espnow_comm.cpp).
use ray_z.EspNow.{
  EspnowComm, Radio, esp_ok, espnow_comm_add_peer, load_tokens, esp_fail,
  espnow_comm_load_peers_from_csv, tokens, is_ok,
}
use ray_z.EspNow.AddPeer.{
  add_peer_keeps, add_peer_other, add_peer_refused, add_peer_taken, is_ok_not, ok_cases, or_true,
}
use ray_z.EspNow.Tokens.{
  AreMacs, le-length-with_commas, print_mac-AreTokens, tokens-with_commas, with_commas,
}
use ray_z.Mac.{print_mac, parse_mac_str, skip_space}
use ray_z.Mac.Print.{parse_mac_str-print_mac, skip_space-print_mac}
use ray_z.Prelude.{
  Bool, Bytes, List, [], arith, false, length, map, refl, str_eq, true, ℕ, ◌+◌, ◌<◌, ◌||◌, ◌∷◌, ◌≡◌,
  AreBytes, Bool-cases, ap, eq_of_str_eq, inl, inr, some, u8, ◌∙◌, ◌≢◌, ◌≤◌, if◌then◌else◌, ltb,
  take, ◌↔◌, length-map, str_eq_self, take_all,
}

abbrev pub known : List Bytes → Bytes → Bool
known [] m = false
known (a ∷ ms) m = str_eq m a || known ms m

or_moves : (a b c : Bool) → (a || (b || c)) ≡ ((b || a) || c)
or_moves true true c = refl
or_moves true false c = refl
or_moves false true c = refl
or_moves false false c = refl

pub parse-print_mac :
    (mac : Bytes)
    → length mac ≡ 6
    → AreBytes mac
    → parse_mac_str (skip_space (print_mac mac)) ≡ some mac
parse-print_mac mac size v = rw (skip_space-print_mac mac v) (parse_mac_str-print_mac mac size v)

pub length-cons : (ms : List Bytes) → ms ≢ [] → 1 ≤ length ms
length-cons [] h = absurd (h refl)
length-cons (m ∷ ms) h = omega arith

module _ (esp_now : Radio) where
  open esp_now use {Air, is_peer_exist}

  load_text :
      (csv : Bytes) (e : EspnowComm) (s : Air)
      → 1 ≤ length csv
      → espnow_comm_load_peers_from_csv esp_now csv e s ≡ (
          let (loaded, e', s') = load_tokens esp_now (tokens (take 255 csv) []) 0 e s in
          (if ltb 0 loaded then esp_ok else esp_fail, e', s'))
  unfolding espnow_comm_load_peers_from_csv
  load_text [] e s h = absurd (omega arith)
  load_text (c ∷ csv) e s h = refl

  load_one :
      (a : Bytes) (ts : List Bytes) (loaded : ℕ) (e : EspnowComm) (s : Air)
      → length a ≡ 6
      → AreBytes a
      → load_tokens esp_now (print_mac a ∷ ts) loaded e s ≡ (
          let (err, e', s') = espnow_comm_add_peer esp_now a e s in
          load_tokens esp_now ts (if is_ok err then u8 (loaded + 1) else loaded) e' s')
  unfolding load_tokens
  load_one a ts loaded e s size v = ground (arith, parse-print_mac a size v)

  load_none :
      (loaded : ℕ) (e : EspnowComm) (s : Air) → load_tokens esp_now [] loaded e s ≡ (loaded, e, s)
  unfolding load_tokens
  load_none loaded e s = refl

  -- Each address is a peer, or becomes one without an error, when its turn comes.
  abbrev pub AreTaken : List Bytes → EspnowComm → Air → Type 0
  AreTaken [] e s = Unit {0}
  AreTaken (a ∷ ms) e s =
      ((espnow_comm_add_peer esp_now a e s).0 ≡ esp_ok)
      × AreTaken ms (espnow_comm_add_peer esp_now a e s).1 (espnow_comm_add_peer esp_now a e s).2

  -- What happens to the peers that are not listed, and to those that are there already.
  load_peers-others :
      (ms : List Bytes) (loaded : ℕ) (e : EspnowComm) (s : Air) (m : Bytes)
      → AreMacs ms
      → known ms m ≡ false
      → is_peer_exist (load_tokens esp_now (map print_mac ms) loaded e s).2 m ≡ is_peer_exist s m
  load_peers-others [] loaded e s m v h = rw (load_none loaded e s) refl
  load_peers-others (a ∷ ms) loaded e s m v h =
      let (err, e', s') = espnow_comm_add_peer esp_now a e s in
      rw (load_one a (map print_mac ms) loaded e s v.0 v.1) (
        load_peers-others ms (if is_ok err then u8 (loaded + 1) else loaded) e' s' m v.2
          (ground (arith, h))
        ∙ add_peer_other esp_now a m e s (ground (arith, h)))

  load_peers-keeps :
      (ms : List Bytes) (loaded : ℕ) (e : EspnowComm) (s : Air) (m : Bytes)
      → AreMacs ms
      → is_peer_exist s m ≡ true
      → is_peer_exist (load_tokens esp_now (map print_mac ms) loaded e s).2 m ≡ true
  load_peers-keeps [] loaded e s m v old = rw (load_none loaded e s) old
  load_peers-keeps (a ∷ ms) loaded e s m v old =
      let (err, e', s') = espnow_comm_add_peer esp_now a e s in
      rw (load_one a (map print_mac ms) loaded e s v.0 v.1) (
        load_peers-keeps ms (if is_ok err then u8 (loaded + 1) else loaded) e' s' m v.2
          (add_peer_keeps esp_now a m e s old))

  -- The number of loaded addresses grows, by one at most for each.
  load_peers-count :
      (ms : List Bytes) (loaded : ℕ) (e : EspnowComm) (s : Air)
      → AreMacs ms
      → loaded + length ms < 256
      → let count = (load_tokens esp_now (map print_mac ms) loaded e s).0 in
        (loaded ≤ count) × (count ≤ loaded + length ms)
  load_peers-count [] loaded e s v fits = rw (load_none loaded e s) (omega arith, omega arith)
  load_peers-count (a ∷ ms) loaded e s v fits =
      let (err, e', s') = espnow_comm_add_peer esp_now a e s in
      rw (load_one a (map print_mac ms) loaded e s v.0 v.1) (elim (ok_cases err) [
        | inl ok ↦
            let rest = load_peers-count ms (u8 (loaded + 1)) e' s' v.2 (omega arith) in
            rw ok (omega (arith, rest.0), omega (arith, rest.1))
        | inr bad ↦
            let rest = load_peers-count ms loaded e' s' v.2 (omega arith) in
            rw (is_ok_not err bad) (omega (arith, rest.0), omega (arith, rest.1))
      ])

  -- The number grows at all exactly if some address of the list is a peer in the end.
  load_peers-some :
      (ms : List Bytes) (loaded : ℕ) (e : EspnowComm) (s : Air)
      → AreMacs ms
      → loaded + length ms < 256
      → let (count, _, s') = load_tokens esp_now (map print_mac ms) loaded e s in
        (loaded < count) ↔ ((m : Bytes) × (known ms m ≡ true) × (is_peer_exist s' m ≡ true))
  load_peers-some [] loaded e s v fits =
      rw (load_none loaded e s) ((λ h. absurd (omega arith)), λ h. absurd cc)
  load_peers-some (a ∷ ms) loaded e s v fits =
      let (err, e', s') = espnow_comm_add_peer esp_now a e s in
      rw (load_one a (map print_mac ms) loaded e s v.0 v.1) (elim (ok_cases err) [
        | inl ok ↦
            let there : is_peer_exist s' a ≡ true =
              add_peer_taken esp_now a a e s ok ∙ rw (str_eq_self a) refl in
            let (more, _) = load_peers-count ms (u8 (loaded + 1)) e' s' v.2 (omega arith) in
            rw ok (
              (λ h. (
                a,
                rw (str_eq_self a) refl,
                load_peers-keeps ms (u8 (loaded + 1)) e' s' a v.2 there,
              )),
              λ h. omega (arith, more),
            )
        | inr bad ↦
            let (free, same) = add_peer_refused esp_now a e s bad in
            let (up, down) = load_peers-some ms loaded e' s' v.2 (omega arith) in
            rw (is_ok_not err bad) (
              (λ h. let (m, listed, peer) = up h in (m, rw listed (or_true (str_eq m a)), peer)),
              λ h.
                  let (m, listed, peer) = h in
                  elim (Bool-cases (known ms m)) [
                    | inl later ↦ down (m, later, peer)
                    | inr now ↦
                        let first : str_eq m a ≡ true = ground (arith, listed, now) in
                        let gone : is_peer_exist s m ≡ false =
                          ap (λ x. is_peer_exist s x) (eq_of_str_eq m a first) ∙ free in
                        let stays = load_peers-others ms loaded e' s' m v.2 now ∙ same m ∙ gone in
                        absurd (cc (stays, peer))
                  ],
            )
      ])

  load_peers-AreTaken :
      (ms : List Bytes) (loaded : ℕ) (e : EspnowComm) (s : Air)
      → AreMacs ms
      → loaded + length ms < 256
      → AreTaken ms e s
      → (m : Bytes)
      → is_peer_exist (load_tokens esp_now (map print_mac ms) loaded e s).2 m
        ≡ (known ms m || is_peer_exist s m)
  load_peers-AreTaken [] loaded e s v fits taken m = rw (load_none loaded e s) refl
  load_peers-AreTaken (a ∷ ms) loaded e s v fits taken m =
      let (err, e', s') = espnow_comm_add_peer esp_now a e s in
      rw (load_one a (map print_mac ms) loaded e s v.0 v.1, taken.0)
        (load_peers-AreTaken ms (u8 (loaded + 1)) e' s' v.2 (omega arith) taken.1 m
          ∙ ap (λ b. known ms m || b) (add_peer_taken esp_now a m e s taken.0)
          ∙ or_moves (known ms m) (str_eq m a) (is_peer_exist s m))

  ok_iff : (count : ℕ) → ((if ltb 0 count then esp_ok else esp_fail) ≡ esp_ok) ↔ (0 < count)
  ok_iff count = ground arith

  -- A list of at least one printed address, with commas between them and at most 255 bytes long, is
  -- loaded without an error exactly if some address of it is a peer in the end. No other address
  -- becomes a peer and no peer is lost; and if each address of the list, when its turn comes, is a
  -- peer or is accepted by the library, exactly these and the former ones are peers in the end.
  pub load_peers_lem :
      (ms : List Bytes) (e : EspnowComm) (s : Air)
      → AreMacs ms
      → ms ≢ []
      → length (with_commas (map print_mac ms)) ≤ 255
      → let (err, _, s') =
          espnow_comm_load_peers_from_csv esp_now (with_commas (map print_mac ms)) e s in
        ((err ≡ esp_ok) ↔ ((m : Bytes) × (known ms m ≡ true) × (is_peer_exist s' m ≡ true)))
        × ((m : Bytes) → known ms m ≡ false → is_peer_exist s' m ≡ is_peer_exist s m)
        × ((m : Bytes) → is_peer_exist s m ≡ true → is_peer_exist s' m ≡ true)
        × (AreTaken ms e s → (m : Bytes) → is_peer_exist s' m ≡ (known ms m || is_peer_exist s m))
  load_peers_lem ms e s v some_mac fits =
      let v' = print_mac-AreTokens ms v in
      let csv = with_commas (map print_mac ms) in
      let size = le-length-with_commas (map print_mac ms) v' in
      let some_length = length-cons ms some_mac in
      let few : 0 + length ms < 256 = omega (arith, length-map print_mac ms) in
      let (count, _, s') = load_tokens esp_now (map print_mac ms) 0 e s in
      let (up, down) = load_peers-some ms 0 e s v few in
      let (ok_up, ok_down) = ok_iff count in
      rw
        (
          load_text csv e s (omega (arith, length-map print_mac ms)),
          take_all 255 csv fits,
          tokens-with_commas (map print_mac ms) v',
        )
        (
          (λ h. up (ok_up h), λ h. ok_down (down h)),
          (λ m h. load_peers-others ms 0 e s m v h),
          (λ m h. load_peers-keeps ms 0 e s m v h),
          (λ taken m. load_peers-AreTaken ms 0 e s v few taken m),
        )
