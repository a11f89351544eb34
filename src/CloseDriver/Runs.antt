-- ===== src/CloseDriver/Runs.antt =====
-- What the owner hears, how often the valve is told to close, and how a close ends, over a run of
-- passes.
use dock_neighbor_hub.Shared.{
  ℕ, ◌+◌, ◌-◌, ◌≤◌, ◌<◌, ◌≡◌, ◌∙◌, ◌⊎◌, refl, inl, inr, Bool, true, false, List, [], ◌∷◌, ◌++◌,
  Option, none, some, String, arith, lookup, u32, Option-cases,
}
use dock_neighbor_hub.CloseWatch.{CloseSchedule, CloseWatch, production, alert_due, close_step}
use dock_neighbor_hub.CloseWatch.Schedule.{production_due}
use dock_neighbor_hub.CloseDriver.{Closes, drive_one}
use dock_neighbor_hub.CloseDriver.Passes.{
  told_watch, watch_acted, alerts, corrections, stops, count, is_reissue, is_confirmed,
  alerts-append, corrections-append, stops-append, seen_watering, drive_one-Sent, pass_run,
}

pass_run_empty :
    (sched : CloseSchedule) (id : String) (inputs : List (Option Bool × ℕ)) (closes : Closes)
    → lookup id closes ≡ none
    → pass_run sched id inputs closes ≡ (closes, [])
unfolding pass_run
pass_run_empty sched id [] closes h = refl
pass_run_empty sched id ((status, now_ms) ∷ rest) closes h = rw (h, pass_run)

pass_run_cons :
    (sched : CloseSchedule) (id : String) (status : Option Bool) (now_ms : ℕ)
    (rest : List (Option Bool × ℕ)) (closes : Closes) (w : CloseWatch)
    → lookup id closes ≡ some w
    → let one = drive_one sched closes id w status now_ms none in
      let more = pass_run sched id rest one.0 in
      pass_run sched id ((status, now_ms) ∷ rest) closes ≡ (more.0, one.1 ++ more.1)
unfolding pass_run
pass_run_cons sched id status now_ms rest closes w h = rw (h, pass_run)

-- The flag only ever goes up, and `alert_due` asks for it to be down.
told_alerted :
    (sched : CloseSchedule) (w : CloseWatch) (watering : Bool) (now_ms : ℕ)
    → count (told_watch sched w watering now_ms).alerted
      ≡ count (alert_due sched w watering now_ms) + count w.alerted
unfolding alert_due
told_alerted sched w watering now_ms = ground arith

acted_alerted :
    (sched : CloseSchedule) (w w' : CloseWatch) (watering : Bool) (now_ms : ℕ)
    → watch_acted sched w watering now_ms ≡ some w'
    → (w'.alerted ≡ w.alerted) × (is_confirmed sched w watering now_ms ≡ false)
unfolding is_confirmed
acted_alerted sched w w' watering now_ms h = ground arith

-- Over any run of passes over a closing valve the owner is told of the failure at most once, not at
-- all if he was told before the run began, and hears a correction only if he was told.
pub alerts-pass_run :
    (sched : CloseSchedule) (id : String) (inputs : List (Option Bool × ℕ)) (closes : Closes)
    (w : CloseWatch)
    → lookup id closes ≡ some w
    → let sent = (pass_run sched id inputs closes).1 in
      (alerts sent + count w.alerted ≤ 1) × (corrections sent ≤ alerts sent + count w.alerted)
unfolding pass_run
alerts-pass_run sched id [] closes w h = ground arith
alerts-pass_run sched id ((status, now_ms) ∷ rest) closes w h =
    let one = drive_one sched closes id w status now_ms none in
    let sent = drive_one-Sent sched closes id w status now_ms none h in
    let watering = seen_watering status in
    let told = told_watch sched w watering now_ms in
    let fs = (pass_run sched id rest one.0).1 in
    elim (Option-cases (watch_acted sched told watering now_ms)) [
      | inl e ↦
          rw
            (
              pass_run_cons sched id status now_ms rest closes w h,
              pass_run_empty sched id rest one.0 (sent.left ∙ e),
            )
            (ground (
              arith,
              alerts-append one.1 [],
              corrections-append one.1 [],
              sent.alerted,
              sent.corrected,
              told_alerted sched w watering now_ms,
            ))
      | inr (w', e) ↦
          let more = alerts-pass_run sched id rest one.0 w' (sent.left ∙ e) in
          rw (pass_run_cons sched id status now_ms rest closes w h) (
            ground (
              arith,
              more,
              acted_alerted sched told w' watering now_ms e,
              alerts-append one.1 fs,
              corrections-append one.1 fs,
              sent.alerted,
              sent.corrected,
              told_alerted sched w watering now_ms,
            ))
    ]

-- An attempt that is sent on the production schedule fell due before the retrying ended.
acted_attempts :
    (w : CloseWatch) (watering : Bool) (now_ms : ℕ)
    → w.attempts ≤ 34
    → let step = is_reissue production w watering now_ms in
      (count step + w.attempts ≤ 34)
      × ((w' : CloseWatch)
          → watch_acted production w watering now_ms ≡ some w'
          → w'.attempts ≡ count step + w.attempts)
unfolding is_reissue close_step
acted_attempts w watering now_ms h =
    let due = production_due (u32 (w.attempts + 1)) in (ground arith, λ w' e. ground arith)

-- On the production schedule, from a count of attempts of 34 at most, a valve is sent at most 34 stops for one close, the first included,
-- however the passes fall; so the `u32` count of attempts never wraps.
pub stops-pass_run :
    (id : String) (inputs : List (Option Bool × ℕ)) (closes : Closes) (w : CloseWatch)
    → lookup id closes ≡ some w
    → w.attempts ≤ 34
    → stops (pass_run production id inputs closes).1 + w.attempts ≤ 34
unfolding pass_run
stops-pass_run id [] closes w h a = ground arith
stops-pass_run id ((status, now_ms) ∷ rest) closes w h a =
    let one = drive_one production closes id w status now_ms none in
    let sent = drive_one-Sent production closes id w status now_ms none h in
    let watering = seen_watering status in
    let told = told_watch production w watering now_ms in
    let fs = (pass_run production id rest one.0).1 in
    let same : told.attempts ≡ w.attempts = ground arith in
    let (bound, next) = acted_attempts told watering now_ms (omega (arith, same)) in
    elim (Option-cases (watch_acted production told watering now_ms)) [
      | inl e ↦
          rw
            (
              pass_run_cons production id status now_ms rest closes w h,
              pass_run_empty production id rest one.0 (sent.left ∙ e),
            )
            (omega (arith, stops-append one.1 [], sent.stopped, bound, same))
      | inr (w', e) ↦
          let more =
            stops-pass_run id rest one.0 w' (sent.left ∙ e) (omega (arith, next w' e, bound)) in
          rw (pass_run_cons production id status now_ms rest closes w h)
            (omega (arith, more, next w' e, stops-append one.1 fs, sent.stopped, same))
    ]

-- Some pass sees the valve shut, or comes after the retrying has ended.
abbrev pub Settles : CloseSchedule → ℕ → List (Option Bool × ℕ) → Type 0
Settles sched first_ms [] = ⊥
Settles sched first_ms ((status, now_ms) ∷ rest) =
    ((seen_watering status ≡ false) ⊎ (sched.give_up_ms ≤ now_ms - first_ms))
    ⊎ Settles sched first_ms rest

acted_first :
    (sched : CloseSchedule) (w w' : CloseWatch) (watering : Bool) (now_ms : ℕ)
    → watch_acted sched w watering now_ms ≡ some w'
    → (w'.first_ms ≡ w.first_ms)
      × (w'.cause ≡ w.cause)
      × (watering ≡ true)
      × (now_ms - w.first_ms < sched.give_up_ms)
unfolding close_step
acted_first sched w w' watering now_ms h = ground arith

-- Every close comes to an end: once a pass sees the valve shut, or falls at or after the end of the
-- retrying, the valve's slot is empty.
pub pass_run_ends :
    (sched : CloseSchedule) (id : String) (inputs : List (Option Bool × ℕ)) (closes : Closes)
    (w : CloseWatch)
    → lookup id closes ≡ some w
    → Settles sched w.first_ms inputs
    → lookup id (pass_run sched id inputs closes).0 ≡ none
unfolding pass_run
pass_run_ends sched id [] closes w h s = absurd s
pass_run_ends sched id ((status, now_ms) ∷ rest) closes w h s =
    let one = drive_one sched closes id w status now_ms none in
    let sent = drive_one-Sent sched closes id w status now_ms none h in
    let watering = seen_watering status in
    let told = told_watch sched w watering now_ms in
    let same : told.first_ms ≡ w.first_ms = ground arith in
    elim (Option-cases (watch_acted sched told watering now_ms)) [
      | inl e ↦
          rw
            (
              pass_run_cons sched id status now_ms rest closes w h,
              pass_run_empty sched id rest one.0 (sent.left ∙ e),
            )
            (sent.left ∙ e)
      | inr (w', e) ↦
          let (f, _, wet, early) = acted_first sched told w' watering now_ms e in
          rw (pass_run_cons sched id status now_ms rest closes w h) (elim s [
            | inl (inl shut) ↦ cc
            | inl (inr late) ↦ absurd (omega arith)
            | inr later ↦ pass_run_ends sched id rest one.0 w' (sent.left ∙ e) (rw (f ∙ same) later)
          ])
    ]
