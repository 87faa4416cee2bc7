-- ===== src/Wifi/Retry.antt =====
-- Series of lost connections of the station (`on_wifi_disconnect`, esp32/shared/src/wifi_core.cpp).
use ray_z.NvsStore.{Nvs}
use ray_z.Prelude.{
  List, Option, [], arith, false, if◌then◌else◌, length, ltb, refl, suc, ℕ, ◌%◌, ◌*◌, ◌++◌, ◌+◌,
  ◌/◌, ◌<◌, ◌==◌, ◌||◌, ◌∙◌, ◌∷◌, ◌≡◌, ◌≤◌,
}
use ray_z.Wifi.{
  DriverCall, Link, Reason, Replies, backoff_ms, driver_reset, max_retry_count, on_wifi_disconnect,
  put_bit, relax_due, task_delay, try_connect, wifi_set_ps_none,
}
use ray_z.Wifi.Calls.{Plain, is_connect, is_restore, total, total-++, total-adjusted, waited}

-- One loss of the connection: its reason, the driver's answers and the store at that time.
pub record Loss (nvs : Nvs) : Type 0 where
  pub reason : Option Reason
  pub replies : Replies
  pub store : nvs.Flash

-- The calls of the attempt after the adjustments of the configuration.
abbrev attempt : (nvs : Nvs) → ℕ → Loss nvs → List DriverCall
attempt nvs count l =
    if ltb count max_retry_count
    then if count == 8
      then driver_reset nvs 2000 l.store
      else task_delay (backoff_ms count) ∷ wifi_set_ps_none ∷ try_connect l.replies.accepted
    else driver_reset nvs 3000 l.store

is_restore-Plain : Plain is_restore
unfolding Plain
is_restore-Plain conf = refl

is_connect-Plain : Plain is_connect
unfolding Plain
is_connect-Plain conf = refl

waited-Plain : Plain waited
unfolding Plain
waited-Plain conf = refl

next_count : (r k : ℕ) → r < 15 → k ≡ (if ltb (r + 1) 15 then r + 1 else 0) → k < 15
next_count r k small next = ground arith

count_step :
    (r n k : ℕ)
    → r < 15
    → k ≡ (if ltb (r + 1) 15 then r + 1 else 0)
    → (k + n) % 15 ≡ (r + suc n) % 15
count_step r n k small next = ground arith

restore_step :
    (r n k s t : ℕ)
    → r < 15
    → k ≡ (if ltb (r + 1) 15 then r + 1 else 0)
    → s ≡ (if r + 1 == 8 || r + 1 == 15 then 1 else 0)
    → t + (k + 7) / 15 ≡ (k + n + 7) / 15 + (k + n) / 15
    → s + t + (r + 7) / 15 ≡ (r + suc n + 7) / 15 + (r + suc n) / 15
restore_step r n k s t small next restores rest = ground arith

module _ (nvs : Nvs) where
  unfoldable pub lose : Loss nvs → Link → List DriverCall × Link
  unfolding on_wifi_disconnect
  lose l link = on_wifi_disconnect nvs l.reason l.replies l.store link

  -- What is asked of the driver over a series of losses.
  unfoldable pub lose_all : List (Loss nvs) → Link → List DriverCall × Link
  lose_all [] link = ([], link)
  lose_all (l ∷ ls) link =
      let (first, link1) = lose l link in
      let (rest, link2) = lose_all ls link1 in (first ++ rest, link2)

  total-lose :
      (weight : DriverCall → ℕ) (l : Loss nvs) (link : Link)
      → Plain weight
      → total weight (lose l link).0 ≡ total weight (attempt nvs (link.retry_count + 1) l)
  unfolding lose on_wifi_disconnect
  total-lose weight l link plain =
      let count = link.retry_count + 1 in
      total-adjusted weight plain (ltb count 15) (count == 3) (relax_due count l.reason) l.replies
        (if count == 8
          then driver_reset nvs 2000 l.store
          else task_delay (backoff_ms count) ∷ wifi_set_ps_none ∷ try_connect l.replies.accepted)
        (driver_reset nvs 3000 l.store)
        (record { retry_count = count; connected_bit = put_bit false link.connected_bit })
        (record { retry_count = 0; connected_bit = put_bit false link.connected_bit })

  attempt-restore :
      (count : ℕ) (l : Loss nvs)
      → count ≤ 15
      → total is_restore (attempt nvs count l) ≡ (if count == 8 || count == 15 then 1 else 0)
  unfolding total driver_reset try_connect
  attempt-restore count l h = ground arith

  attempt-connect :
      (count : ℕ) (l : Loss nvs)
      → (1 ≤ total is_connect (attempt nvs count l)) × (total waited (attempt nvs count l) ≤ 7000)
  unfolding total driver_reset try_connect backoff_ms
  attempt-connect count l = (ground arith, ground arith)

  lose-count :
      (l : Loss nvs) (link : Link)
      → (lose l link).1.retry_count
        ≡ (if ltb (link.retry_count + 1) 15 then link.retry_count + 1 else 0)
  unfolding lose on_wifi_disconnect
  lose-count l link = ground arith

  restored :
      (l : Loss nvs) (link : Link)
      → link.retry_count < 15
      → total is_restore (lose l link).0
        ≡ (if link.retry_count + 1 == 8 || link.retry_count + 1 == 15 then 1 else 0)
  restored l link h =
      total-lose is_restore l link is_restore-Plain
      ∙ attempt-restore (link.retry_count + 1) l (omega arith)

  -- From a counter below 15, a series of losses without a connection in between adds to the counter
  -- the number of losses modulo 15, and resets the driver once for each time that the counter
  -- reaches 8 and once for each time that it starts again from 0.
  pub lose_all-cycle :
      (ls : List (Loss nvs)) (link : Link)
      → link.retry_count < 15
      → ((lose_all ls link).1.retry_count ≡ (link.retry_count + length ls) % 15)
        × (total is_restore (lose_all ls link).0 + (link.retry_count + 7) / 15
            ≡ (link.retry_count + length ls + 7) / 15 + (link.retry_count + length ls) / 15)
  unfolding lose_all total
  lose_all-cycle [] link h = (ground arith, ground arith)
  lose_all-cycle (l ∷ ls) link h =
      let r = link.retry_count in
      let next = (lose l link).1 in
      let counted = lose-count l link in
      let (count, restores) = lose_all-cycle ls next (next_count r next.retry_count h counted) in
      (
        count ∙ count_step r (length ls) next.retry_count h counted,
        rw (total-++ is_restore (lose l link).0 (lose_all ls next).0) (
            restore_step r (length ls) next.retry_count (total is_restore (lose l link).0)
              (total is_restore (lose_all ls next).0) h counted (restored l link h) restores),
      )

  -- Over any series of losses the driver is asked to connect at least once for each, and the waits
  -- add up to at most 7 s for each.
  pub retries_go_on :
      (ls : List (Loss nvs)) (link : Link)
      → (length ls ≤ total is_connect (lose_all ls link).0)
        × (total waited (lose_all ls link).0 ≤ 7000 * length ls)
  unfolding lose_all total
  retries_go_on [] link = (omega arith, omega arith)
  retries_go_on (l ∷ ls) link =
      let next = (lose l link).1 in
      let (asked, waits) = retries_go_on ls next in
      let (once, short) = attempt-connect (link.retry_count + 1) l in
      (
        omega (
          arith,
          total-++ is_connect (lose l link).0 (lose_all ls next).0,
          total-lose is_connect l link is_connect-Plain,
        ),
        omega (
          arith,
          total-++ waited (lose l link).0 (lose_all ls next).0,
          total-lose waited l link waited-Plain,
        ),
      )
