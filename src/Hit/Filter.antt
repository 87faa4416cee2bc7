-- ===== src/Hit/Filter.antt =====
-- The confirmation filter of esp32/target/src/tasks/processing_task.cpp.
-- What reaches `processing_task` in one round.
use ray_z.Events.{Action}
use ray_z.Hit.{Clock, Confirm, Target, confirm_word, processing_round, strike, receive_valid}
use ray_z.Laser.{validate_laser_message}
use ray_z.Prelude.{
  Bool, List, [], arith, get_elem?, if◌then◌else◌, is_some, suc, ℕ, ◌*◌, ◌+◌, ◌∷◌, ◌≤◌,
}

pub record Arrival : Type 0 where
  pub connected : Bool
  pub connected_again : Bool
  pub clock : Clock
  pub word : ℕ

abbrev pub step : Arrival → Target → List Action × Target
step a s = processing_round a.connected a.connected_again a.clock a.word s

-- The rounds of the task on the words that arrive, and how many of them make a hit.
abbrev pub count_hits : List Arrival → Target → ℕ
count_hits [] s = 0
count_hits (a ∷ more) s =
    let rest = count_hits more (step a s).1 in
    if is_some (get_elem? (step a s).0 0) then suc rest else rest

-- How often a word occurs.
abbrev pub count_valid : List Arrival → ℕ
count_valid [] = 0
count_valid (a ∷ more) =
    if is_some (validate_laser_message a.word) then suc (count_valid more) else count_valid more

-- A word is waiting for at most one confirmation.
abbrev pub IsConfirm : Confirm → Type 0
IsConfirm c = c.confirm_count ≤ 1

step-IsConfirm : (a : Arrival) (s : Target) → IsConfirm s.confirm → IsConfirm (step a s).1.confirm
unfolding processing_round receive_valid confirm_word strike
step-IsConfirm a s h = ground arith

step_budget :
    (a : Arrival) (s : Target)
    → IsConfirm s.confirm
    → (if is_some (get_elem? (step a s).0 0) then 2 else 0) + (step a s).1.confirm.confirm_count
      ≤ (if is_some (validate_laser_message a.word) then 1 else 0) + s.confirm.confirm_count
unfolding processing_round receive_valid confirm_word strike
step_budget a s h = ground arith

-- Over any sequence of received words that starts with at most one confirmation waiting, twice the
-- number of hits is at most the number of words that validate plus the confirmations waiting at the
-- start.
pub count_hits-bound :
    (more : List Arrival) (s : Target)
    → IsConfirm s.confirm
    → 2 * count_hits more s ≤ count_valid more + s.confirm.confirm_count
count_hits-bound [] s h = omega arith
count_hits-bound (a ∷ more) s h =
    ground (arith, step_budget a s h, count_hits-bound more (step a s).1 (step-IsConfirm a s h))
