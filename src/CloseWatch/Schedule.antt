-- ===== src/CloseWatch/Schedule.antt =====
-- When re-issues fall due, and how long the caller may sleep between two looks.
use native.Mathlib.Nat.{le_refl, le_trans}
use dock_neighbor_hub.Shared.{
  ℕ, zero, suc, ◌+◌, ◌-◌, ◌≤◌, ◌<◌, ◌≡◌, ◌⊎◌, length, true, false, List, [], ◌∷◌, arith, u32,
  u32_max,
}
use dock_neighbor_hub.CloseWatch.{
  CloseSchedule, CloseWatch, wait, i64_max, production, offset_at, due_at_ms, close_step,
  next_look_ms,
}

-- The offsets climb from `lo`.
abbrev pub Ascends : ℕ → List ℕ → Type 0
Ascends lo [] = Unit {0}
Ascends lo (x ∷ xs) = (lo ≤ x) × Ascends x xs

offset_at-cons :
    (lo x : ℕ) (xs : List ℕ) (every i : ℕ)
    → offset_at lo (x ∷ xs) every (suc i) ≡ offset_at x xs every i
unfolding offset_at
offset_at-cons lo x xs every i =
    let e : suc i - suc (length xs) ≡ i - length xs = omega arith in ground arith

le-offset_at : (lo : ℕ) (xs : List ℕ) (every i : ℕ) → Ascends lo xs → lo ≤ offset_at lo xs every i
unfolding offset_at
le-offset_at lo [] every i h = omega arith
le-offset_at lo (x ∷ xs) every zero h = h.0
le-offset_at lo (x ∷ xs) every (suc i) h =
    omega (arith, offset_at-cons lo x xs every i, le-offset_at x xs every i h.1)

offset_at-suc :
    (lo : ℕ) (xs : List ℕ) (every i : ℕ)
    → Ascends lo xs
    → offset_at lo xs every i ≤ offset_at lo xs every (suc i)
unfolding offset_at
offset_at-suc lo [] every i h = grind arith
offset_at-suc lo (x ∷ []) every zero h = grind arith
offset_at-suc lo (x ∷ y ∷ xs) every zero h = h.1.0
offset_at-suc lo (x ∷ xs) every (suc i) h =
    rw (offset_at-cons lo x xs every i, offset_at-cons lo x xs every (suc i))
      (offset_at-suc x xs every i h.1)

due_at_ms-suc :
    (s : CloseSchedule) (n : ℕ) → Ascends 0 s.retry_at_ms → due_at_ms s n ≤ due_at_ms s (suc n)
unfolding due_at_ms
due_at_ms-suc s zero h = omega arith
due_at_ms-suc s (suc zero) h = omega arith
due_at_ms-suc s (suc (suc n)) h =
    let e : suc (suc n) - 2 ≡ n = omega arith in
    let e' : suc (suc (suc n)) - 2 ≡ suc n = omega arith in
    let step = offset_at-suc 0 s.retry_at_ms s.then_every_ms n h in ground arith

pub production_due : (n : ℕ) → due_at_ms production n < 1800000 → n ≤ 34
unfolding due_at_ms offset_at
production_due n h = ground arith

due_at_ms-add :
    (s : CloseSchedule) (n k : ℕ) → Ascends 0 s.retry_at_ms → due_at_ms s n ≤ due_at_ms s (k + n)
due_at_ms-add s n zero h = let e : zero + n ≡ n = omega arith in rw e (le_refl _)
due_at_ms-add s n (suc k) h =
    let e : suc k + n ≡ suc (k + n) = omega arith in
    rw e (le_trans (due_at_ms-add s n k h) (due_at_ms-suc s (k + n) h))

-- On a schedule whose named offsets climb, a later attempt never falls due before an earlier one,
-- on the named offsets, past them and across the boundary.
pub due_at_ms_mono :
    (s : CloseSchedule) (n m : ℕ) → Ascends 0 s.retry_at_ms → n ≤ m → due_at_ms s n ≤ due_at_ms s m
due_at_ms_mono s n m h le =
    let e : m ≡ (m - n) + n = omega arith in rw e (due_at_ms-add s n (m - n) h)

-- What a nap may not outlast: each of the instants at which the caller must look again.
pub record Rested (s : CloseSchedule) (w : CloseWatch) (now_ms nap : ℕ) : Type 0 where
  pub positive : 1 ≤ nap
  pub before_reissue : now_ms + nap ≤ w.first_ms + due_at_ms s (w.attempts + 1)
  pub before_give_up : now_ms + nap ≤ w.first_ms + s.give_up_ms
  pub before_confirm :
      now_ms < w.last_ms + s.confirm_within_ms → now_ms + nap ≤ w.last_ms + s.confirm_within_ms
  pub before_alert :
      w.alerted ≡ false
      → now_ms < w.first_ms + s.alert_at_ms
      → now_ms + nap ≤ w.first_ms + s.alert_at_ms
  pub tight :
      (now_ms + nap ≡ w.first_ms + due_at_ms s (w.attempts + 1))
      ⊎ ((now_ms + nap ≡ w.first_ms + s.give_up_ms)
          ⊎ ((now_ms + nap ≡ w.last_ms + s.confirm_within_ms)
              ⊎ (now_ms + nap ≡ w.first_ms + s.alert_at_ms)))

-- After a look that decided to wait, no earlier than the close began and with the count of attempts
-- and the end of the retrying below the ends of a `u32` and an `i64`: the nap is positive and outlasts neither the next re-issue, nor
-- the end of the retrying, nor a confirm window or an alert point that is still ahead; and it ends
-- exactly at one of these instants, so it is no shorter than they demand.
pub next_look_ms-Rested :
    (s : CloseSchedule) (w : CloseWatch) (now_ms : ℕ)
    → w.attempts < u32_max
    → w.first_ms ≤ now_ms
    → w.first_ms + s.give_up_ms ≤ i64_max
    → close_step s w true now_ms ≡ wait
    → Rested s w now_ms (next_look_ms s w now_ms)
unfolding close_step next_look_ms
next_look_ms-Rested s w now_ms a f m h =
    let e : u32 (w.attempts + 1) ≡ w.attempts + 1 = omega arith in ground arith
