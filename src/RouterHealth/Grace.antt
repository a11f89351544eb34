-- ===== src/RouterHealth/Grace.antt =====
-- The grace machine against the history of polls.
use dock_neighbor_hub.Shared.{
  ℕ, suc, ◌+◌, ◌-◌, ◌≤◌, ◌≡◌, refl, inl, inr, min, max, Bool, true, false, ◌&&◌, ◌||◌, List, [],
  ◌∷◌, Option, none, some, arith, leb, if◌then◌else◌, length, saturating_suc32, u32_max,
  is_some_and, map_or, Option-cases,
}
use dock_neighbor_hub.RouterHealth.{
  RouterHealth, Sample, Verdict, reported_down, failed, report, hold, went_down, still_down,
  healthy, is_down, down_grace_ms, max_retry_ms, retry_delay_ms, observe, observe_bad,
}

pub record Poll : Type 0 where
  pub sample : Sample
  pub started_ms : ℕ
  pub finished_ms : ℕ

-- Histories, the newest poll first.
pub after_polls : List Poll → RouterHealth
after_polls [] = healthy
after_polls (p ∷ older) = (observe (after_polls older) p.sample p.started_ms p.finished_ms).0

abbrev pub is_good : Sample → Bool
is_good Sample.up = true
is_good (reported_down m) = false
is_good failed = false

-- The current run of bad samples.
pub bad_run : List Poll → List Poll
bad_run [] = []
bad_run (p ∷ older) = if is_good p.sample then [] else p ∷ bad_run older

abbrev pub run_start : List Poll → ℕ → ℕ
run_start [] d = d
run_start (p ∷ older) d = run_start older p.started_ms

abbrev pub device_measured : Sample → Bool
device_measured Sample.up = false
device_measured failed = false
device_measured (reported_down m) = is_some_and m (λ ms. leb down_grace_ms ms)

-- The device measured the outage itself, or a second bad sample came back at least the grace window
-- after the first one was begun; at this poll of the run or at an earlier one.
pub earned_down : List Poll → Bool
earned_down [] = false
earned_down (p ∷ older) =
    device_measured p.sample
    || (leb 2 (length (p ∷ older))
        && leb down_grace_ms (p.finished_ms - run_start older p.started_ms))
    || earned_down older

record Tracks (r : RouterHealth) (run : List Poll) : Type 0 where
  failures : r.consecutive_failures ≡ min (length run) u32_max
  first :
      r.first_failure_at ≡ elim run [ [] ↦ none | p ∷ older ↦ some (run_start older p.started_ms) ]
  state : is_down r.reported ≡ earned_down run

observe_bad-Tracks :
    (r : RouterHealth) (p : Poll) (m : Option ℕ) (run : List Poll)
    → device_measured p.sample ≡ is_some_and m (λ ms. leb down_grace_ms ms)
    → Tracks r run
    → Tracks (observe_bad r m p.started_ms p.finished_ms).0 (p ∷ run)
unfolding observe_bad earned_down
observe_bad-Tracks r p m [] e t = ground (arith, t.failures, t.first, t.state)
observe_bad-Tracks r p m (q ∷ run) e t = ground (arith, t.failures, t.first, t.state)

abbrev poll : Sample → ℕ → ℕ → Poll
poll s started finished = record { sample = s; started_ms = started; finished_ms = finished }

after_polls-cons :
    (older : List Poll) (s : Sample) (started finished : ℕ)
    → Tracks (after_polls older) (bad_run older)
    → Tracks
        (after_polls (poll s started finished ∷ older))
        (bad_run (poll s started finished ∷ older))
unfolding after_polls bad_run earned_down observe
after_polls-cons older Sample.up started finished t = record {
  failures = omega arith;
  first = refl;
  state = refl;
}
after_polls-cons older (reported_down m) started finished t =
    observe_bad-Tracks (after_polls older) (poll (reported_down m) started finished) m
      (bad_run older) refl t
after_polls-cons older failed started finished t =
    observe_bad-Tracks (after_polls older) (poll failed started finished) none (bad_run older) refl
      t

after_polls-Tracks : (h : List Poll) → Tracks (after_polls h) (bad_run h)
unfolding after_polls bad_run earned_down
after_polls-Tracks [] = record { failures = omega arith; first = refl; state = refl }
after_polls-Tracks (p ∷ older) =
    after_polls-cons older p.sample p.started_ms p.finished_ms (after_polls-Tracks older)

-- After any history of polls a router is reported down exactly when its current run of bad samples
-- has earned it: the device measured an outage of the grace window itself, or a second bad sample
-- came back at least the window after the first one was begun.
pub after_polls-is_down :
    (h : List Poll) → is_down (after_polls h).reported ≡ earned_down (bad_run h)
after_polls-is_down h = (after_polls-Tracks h).state

-- One failed poll never reports a router down, whatever came before the good sample ahead of it and
-- however long the poll took.
pub one_failure_holds :
    (older : List Poll) (good bad : Poll)
    → good.sample ≡ Sample.up
    → bad.sample ≡ failed
    → let r = after_polls (good ∷ older) in
      (observe r bad.sample bad.started_ms bad.finished_ms).1 ≡ hold
unfolding after_polls observe observe_bad
one_failure_holds older good bad g b = ground arith

pub downs : List Verdict → ℕ
downs [] = 0
downs (went_down ∷ vs) = suc (downs vs)
downs (report b ∷ vs) = downs vs
downs (hold ∷ vs) = downs vs
downs (still_down ∷ vs) = downs vs

pub recoveries : List Verdict → ℕ
recoveries [] = 0
recoveries (report true ∷ vs) = suc (recoveries vs)
recoveries (report false ∷ vs) = recoveries vs
recoveries (went_down ∷ vs) = recoveries vs
recoveries (hold ∷ vs) = recoveries vs
recoveries (still_down ∷ vs) = recoveries vs

pub verdicts : List Poll → List Verdict
verdicts [] = []
verdicts (p ∷ older) =
    (observe (after_polls older) p.sample p.started_ms p.finished_ms).1 ∷ verdicts older

abbrev pub count : Bool → ℕ
count true = 1
count false = 0

-- Over any history the down reports and the recoveries alternate: there is one more of the first
-- while the router is reported down, and as many of each while it is not.
pub downs-recoveries :
    (h : List Poll)
    → downs (verdicts h) ≡ recoveries (verdicts h) + count (is_down (after_polls h).reported)
unfolding downs recoveries verdicts after_polls observe observe_bad
downs-recoveries [] = omega arith
downs-recoveries (p ∷ older) = ground (arith, downs-recoveries older)

retry_delay_ms-le : (n : ℕ) → retry_delay_ms n ≤ max_retry_ms
unfolding retry_delay_ms
retry_delay_ms-le n = omega arith

-- After a bad sample the next attempt is set: never before the sample came back, never more than a
-- minute later, and while the sample is held no later than the end of the grace window, if that is
-- still ahead.
pub observe-next_retry :
    (r : RouterHealth) (s : Sample) (started finished : ℕ)
    → is_good s ≡ false
    → let (r', v) = observe r s started finished in
      (t : ℕ) × (r'.next_retry_at ≡ some t)
      × (finished ≤ t)
      × (t ≤ finished + max_retry_ms)
      × (v ≡ hold → t ≤ max finished (map_or r.first_failure_at started (λ f. f) + down_grace_ms))
unfolding observe observe_bad
observe-next_retry r s started finished b =
    elim (Option-cases (observe r s started finished).0.next_retry_at) [
      | inl e ↦ absurd (ground arith)
      | inr (t, e) ↦
          let d = retry_delay_ms-le (saturating_suc32 r.consecutive_failures) in
          (t, e, ground arith, ground arith, ground arith)
    ]
