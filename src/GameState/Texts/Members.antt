-- ===== src/GameState/Texts/Members.antt =====
-- What a reader finds in the texts of esp32/shared/src/game_state.cpp.
use ray_z.GameState.Defs.{Vars}
use ray_z.GameState.Texts.{into_buffer, state_text, to_json}
use ray_z.GameState.Texts.Reader.{
  ArePlainKeys, Value, bool_value, le-length-print_members, number_value, print_members,
  read_members-print_members, read_object,
}
use ray_z.Prelude.{
  ==_ne, Bool-cases, Bytes, List, [], ap, arith, codes, inl, inr, length, length-take, ltb, ltb→lt,
  none, now_ms, refl, some, strip_prefix, suc, take_all, ℕ, ◌-◌, ◌<◌, ◌↔◌, ◌∙◌, ◌∷◌, ◌≡◌, ◌≢◌,
}

unfoldable pub state_members : ℕ → Vars → List (Bytes × Value)
state_members t g =
    (codes "shots", number_value g.state.shots_fired)
    ∷ (codes "hits", number_value g.state.hits_landed)
    ∷ (codes "kills", number_value g.state.kills)
    ∷ (codes "deaths", number_value g.state.deaths)
    ∷ (codes "hearts", number_value g.state.hearts_remaining)
    ∷ (codes "score", number_value g.state.player_score)
    ∷ (codes "respawning", bool_value g.state.respawning)
    ∷ (codes "game_running", bool_value g.state.game_running)
    ∷ (codes "game_over", bool_value g.state.game_over)
    ∷ (codes "server_connected", bool_value g.state.server_connected)
    ∷ (codes "uptime", number_value (now_ms t))
    ∷ []

state_text-print_members :
    (t : ℕ) (g : Vars) → state_text t g ≡ b'{' ∷ print_members (state_members t g)
unfolding state_text print_members state_members
state_text-print_members t g = refl

state_members-ne : (t : ℕ) (g : Vars) → state_members t g ≢ []
unfolding state_members
state_members-ne t g e = cc

state_members-ArePlainKeys : (t : ℕ) (g : Vars) → ArePlainKeys (state_members t g)
unfolding state_members
state_members-ArePlainKeys t g = omega arith

read_object-state_text :
    (t : ℕ) (g : Vars) → read_object (state_text t g) ≡ some (state_members t g)
unfolding read_object strip_prefix
read_object-state_text t g =
    let ms = state_members t g in
    rw (state_text-print_members t g) (
      read_members-print_members ms (suc (length (print_members ms))) (state_members-ne t g)
        (state_members-ArePlainKeys t g) (omega (arith, le-length-print_members ms)))

into_buffer_lem :
    (max_len : ℕ) (whole : Bytes)
    → 0 < max_len
    → let (len, s) = into_buffer max_len whole in
      ((len ≢ none) ↔ (length whole < max_len))
      × (len ≢ none → (len ≡ some (length s)) × (s ≡ whole))
      × (length s < max_len)
unfolding into_buffer
into_buffer_lem max_len whole room = elim (Bool-cases (ltb (length whole) max_len)) [
  | inl fits ↦
      let small = ltb→lt (length whole) max_len fits in
      let all = take_all (max_len - 1) whole (omega arith) in
      rw (==_ne max_len 0 (λ e. omega arith), fits, all)
        ((λ h. small, λ h e. cc), (λ h. (refl, refl)), small)
  | inr cut ↦
      rw (==_ne max_len 0 (λ e. omega arith), cut)
        (
          (λ h. absurd (h refl), λ small e. ground arith),
          (λ h. absurd (h refl)),
          omega (arith, length-take (max_len - 1) whole),
        )
]

-- The state as text, in a buffer of at least one byte: the length is returned exactly if the text
-- and its NUL fit the buffer, and then a reader of JSON finds in the buffer the counters, hearts,
-- score, flags and uptime of the state; what is in the buffer is always shorter than it.
pub to_json_lem :
    (max_len t : ℕ) (g : Vars)
    → 0 < max_len
    → let (len, s) = to_json max_len t g in
      ((len ≢ none) ↔ (length (state_text t g) < max_len))
      × (len ≢ none → (len ≡ some (length s)) × (read_object s ≡ some (state_members t g)))
      × (length s < max_len)
unfolding to_json
to_json_lem max_len t g room =
    let (fits, whole, short) = into_buffer_lem max_len (state_text t g) room in
    (
      fits,
      λ h. let (size, same) = whole h in (size, ap read_object same ∙ read_object-state_text t g),
      short,
    )
