-- ===== src/WsServer/Optimized/Cleanup.antt =====
-- The two clean-ups of the client table agree: esp32/shared/src/ws_server_optimized.cpp, which lists
-- the silent sockets and removes one after the other, and ws_server.cpp.
use ray_z.Prelude.{
  Bool, Bool-cases, List, Option, Option-cases, [], ap, arith, false, if◌then◌else◌, inl, inr, ltb,
  none, refl, some, sub32, true, ℕ, ◌&&◌, ◌∙◌, ◌∷◌, ◌≡◌, ◌≢◌, ◌≤◌,
}
use ray_z.WsServer.Clients.{
  WsClient, cleanup_stale, clear_fd, is_fd, is_stale, ws_client_timeout_ms,
}
use ray_z.WsServer.Clients.Counts.{count_fd}
use ray_z.WsServer.Clients.Table.{IsTable}
use ray_z.WsServer.Optimized.{
  OptClient, cleanup_stale_optimized, remove_client_optimized, remove_each, stale_fds,
}
use ray_z.WsServer.Optimized.Entries.{AreBound, entries_of, remove_client_same}

-- The clean-up on the entries alone: the silent ones, and the removal of each.
abbrev is_silent : ℕ → WsClient → Bool
is_silent now c = c.active && ltb ws_client_timeout_ms (sub32 now c.last_activity_ms)

abbrev silent_fds : ℕ → List WsClient → List (Option ℕ)
silent_fds now [] = []
silent_fds now (c ∷ cs) =
    let rest = silent_fds now cs in if is_silent now c then c.fd ∷ rest else rest

abbrev clear_each : List (Option ℕ) → List WsClient → List WsClient
clear_each [] cs = cs
clear_each (none ∷ fds) cs = clear_each fds cs
clear_each (some fd ∷ fds) cs = clear_each fds (clear_fd fd cs)

stale_fds_same : (now : ℕ) (cs : List OptClient) → stale_fds now cs ≡ silent_fds now (entries_of cs)
unfolding stale_fds
stale_fds_same now [] = refl
stale_fds_same now (c ∷ cs) = rw (stale_fds_same now cs) refl

-- No socket of the list is -1.
abbrev AllSome : List (Option ℕ) → Type 0
AllSome [] = Unit {0}
AllSome (fd ∷ fds) = (fd ≢ none) × AllSome fds

-- The clean-up meets no entry that is active and has no socket.
silent_fds-AllSome : (now : ℕ) (cs : List WsClient) → AreBound cs → AllSome (silent_fds now cs)
silent_fds-AllSome now [] b = tt
silent_fds-AllSome now (c ∷ cs) b =
    let rest = silent_fds-AllSome now cs b.1 in
    elim (Bool-cases (is_silent now c)) [
      | inl silent ↦ rw silent (b.0 (ground (arith, silent)), rest)
      | inr quiet ↦ rw quiet rest
    ]

remove_each_same :
    (fds : List (Option ℕ)) (cs : List OptClient)
    → AllSome fds
    → entries_of (remove_each fds cs).1 ≡ clear_each fds (entries_of cs)
unfolding remove_each
remove_each_same [] cs h = refl
remove_each_same (none ∷ fds) cs h = absurd (h.0 refl)
remove_each_same (some fd ∷ fds) cs h =
    remove_each_same fds (remove_client_optimized (some fd) cs).1 h.1
    ∙ ap (clear_each fds) (remove_client_same fd cs)

-- None of the sockets is that of the entry.
abbrev Avoids : WsClient → List (Option ℕ) → Type 0
Avoids c [] = Unit {0}
Avoids c (none ∷ fds) = Avoids c fds
Avoids c (some fd ∷ fds) = ((c.active && is_fd fd c.fd) ≡ false) × Avoids c fds

clear_each_past :
    (fds : List (Option ℕ)) (c : WsClient) (cs : List WsClient)
    → Avoids c fds
    → clear_each fds (c ∷ cs) ≡ c ∷ clear_each fds cs
unfolding clear_fd
clear_each_past [] c cs h = refl
clear_each_past (none ∷ fds) c cs h = clear_each_past fds c cs h
clear_each_past (some fd ∷ fds) c cs h = rw h.0 (clear_each_past fds c (clear_fd fd cs) h.1)

inactive-Avoids : (fds : List (Option ℕ)) (c : WsClient) → c.active ≡ false → Avoids c fds
inactive-Avoids [] c h = tt
inactive-Avoids (none ∷ fds) c h = inactive-Avoids fds c h
inactive-Avoids (some fd ∷ fds) c h = (rw h refl, inactive-Avoids fds c h)

silent_fds-Avoids :
    (now fd : ℕ) (c : WsClient) (cs : List WsClient)
    → c.fd ≡ some fd
    → count_fd fd cs ≡ 0
    → Avoids c (silent_fds now cs)
silent_fds-Avoids now fd c [] e h = tt
silent_fds-Avoids now fd c (d ∷ cs) e h =
    let rest = silent_fds-Avoids now fd c cs e (ground (arith, h)) in
    elim (Bool-cases (is_silent now d)) [
      | inr quiet ↦ rw quiet rest
      | inl silent ↦ elim (Option-cases d.fd) [
        | inl free ↦ rw (silent, free) rest
        | inr (g, taken) ↦ rw (silent, taken) (ground (arith, e, h, silent, taken), rest)
      ]
    ]

-- A clean-up that looks at the time only frees an entry exactly if it is silent.
is_stale_bound :
    (now : ℕ) (c : WsClient)
    → (c.active ≡ true → c.fd ≢ none)
    → (c.active && is_stale now (λ fd. true) c) ≡ is_silent now c
unfolding is_stale
is_stale_bound now c bound = elim (Option-cases c.fd) [
  | inl free ↦ elim (Bool-cases c.active) [
    | inl active ↦ absurd (bound active free)
    | inr idle ↦ rw idle refl
  ]
  | inr (fd, taken) ↦ ground (arith, taken)
]

abbrev emptied : WsClient → WsClient
emptied c = record c { active = false; fd = none }

-- One silent entry at the head.
clear_each_head :
    (now fd : ℕ) (c : WsClient) (cs : List WsClient)
    → is_silent now c ≡ true
    → c.fd ≡ some fd
    → clear_each (silent_fds now (c ∷ cs)) (c ∷ cs) ≡ emptied c ∷ clear_each (silent_fds now cs) cs
unfolding clear_fd
clear_each_head now fd c cs silent taken =
    let fds = silent_fds now cs in
    let mine : (c.active && is_fd fd c.fd) ≡ true = ground (arith, silent, taken) in
    let listed : silent_fds now (c ∷ cs) ≡ some fd ∷ fds = rw silent (ap (λ t. t ∷ fds) taken) in
    let first : clear_fd fd (c ∷ cs) ≡ emptied c ∷ cs = rw mine refl in
    ap (λ l. clear_each l (c ∷ cs)) listed
    ∙ ap (clear_each fds) first
    ∙ clear_each_past fds (emptied c) cs (inactive-Avoids fds (emptied c) refl)

quiet-Avoids :
    (now : ℕ) (c : WsClient) (cs : List WsClient)
    → ((fd : ℕ) → count_fd fd (c ∷ cs) ≤ 1)
    → (c.active ≡ true → c.fd ≢ none)
    → Avoids c (silent_fds now cs)
quiet-Avoids now c cs unique bound = elim (Bool-cases c.active) [
  | inr idle ↦ inactive-Avoids (silent_fds now cs) c idle
  | inl active ↦ elim (Option-cases c.fd) [
    | inl free ↦ absurd (bound active free)
    | inr (fd, taken) ↦
        silent_fds-Avoids now fd c cs taken (ground (arith, active, taken, unique fd))
  ]
]

-- Both clean-ups free the same entries.
clear_each_silent :
    (now : ℕ) (cs : List WsClient)
    → AreBound cs
    → ((fd : ℕ) → count_fd fd cs ≤ 1)
    → clear_each (silent_fds now cs) cs ≡ cleanup_stale now (λ fd. true) cs
unfolding cleanup_stale
clear_each_silent now [] b unique = refl
clear_each_silent now (c ∷ cs) b unique =
    let rest = clear_each_silent now cs b.1 (λ fd. ground (arith, unique fd)) in
    elim (Bool-cases (is_silent now c)) [
      | inr quiet ↦
          rw (is_stale_bound now c b.0, quiet)
            (clear_each_past (silent_fds now cs) c cs (quiet-Avoids now c cs unique b.0)
              ∙ ap (λ t. c ∷ t) rest)
      | inl silent ↦ elim (Option-cases c.fd) [
        | inl free ↦ absurd (b.0 (ground (arith, silent)) free)
        | inr (fd, taken) ↦
            clear_each_head now fd c cs silent taken
            ∙ rw (is_stale_bound now c b.0, silent) (ap (λ t. emptied c ∷ t) rest)
      ]
    ]

pub cleanup_same :
    (now : ℕ) (cs : List OptClient)
    → IsTable (entries_of cs)
    → AreBound (entries_of cs)
    → entries_of (cleanup_stale_optimized now cs).1 ≡ cleanup_stale now (λ fd. true) (entries_of cs)
unfolding cleanup_stale_optimized
cleanup_same now cs h b =
    remove_each_same (stale_fds now cs) cs
      (rw (stale_fds_same now cs) (silent_fds-AllSome now (entries_of cs) b))
    ∙ ap (λ l. clear_each l (entries_of cs)) (stale_fds_same now cs)
    ∙ clear_each_silent now (entries_of cs) b h.unique
