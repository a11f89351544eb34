-- ===== src/Examples/Closes.antt =====
-- Concrete closes of one valve on the production schedule.
use dock_neighbor_hub.Shared.{
  ℕ, ◌+◌, ◌≡◌, ◌≤◌, inl, inr, refl, Bool, true, false, List, [], ◌∷◌, Option, none, some, String,
  arith, lookup,
}
use dock_neighbor_hub.CloseWatch.{
  CloseCause, CloseWatch, production, close_step, next_look_ms, due_at_ms,
}
use dock_neighbor_hub.CloseWatch.Schedule.{Rested, next_look_ms-Rested}
use dock_neighbor_hub.CloseDriver.{Closes, drive_one}
use dock_neighbor_hub.CloseDriver.Slots.{drive_one_stale}
use dock_neighbor_hub.CloseDriver.Passes.{pass_run, alerts, corrections, stops}
use dock_neighbor_hub.CloseDriver.Runs.{alerts-pass_run, stops-pass_run, pass_run_ends}

abbrev valve : String
valve = "3CC1C335004B1200"

abbrev flooding : CloseWatch
flooding = record {
  cause = CloseCause.flood;
  first_ms = 1000;
  last_ms = 1000;
  attempts = 1;
  alerted = false;
}

abbrev closing : Closes
closing = (valve, flooding) ∷ []

closing_found : lookup valve closing ≡ some flooding
unfolding lookup
closing_found = refl

-- A pass without an answer, one that sees the valve open, one past the alert, and one that sees it shut.
abbrev passes : List (Option Bool × ℕ)
passes = (none, 7000) ∷ (some true, 12000) ∷ (some true, 302000) ∷ (some false, 303000) ∷ []

alerts-pass_run_example :
    (alerts (pass_run production valve passes closing).1 + 0 ≤ 1)
    × (corrections (pass_run production valve passes closing).1
        ≤ alerts (pass_run production valve passes closing).1 + 0)
alerts-pass_run_example = alerts-pass_run production valve passes closing flooding closing_found

stops-pass_run_example : stops (pass_run production valve passes closing).1 + 1 ≤ 34
stops-pass_run_example = stops-pass_run valve passes closing flooding closing_found (omega arith)

pass_run_ends_example : lookup valve (pass_run production valve passes closing).0 ≡ none
pass_run_ends_example =
    pass_run_ends production valve passes closing flooding closing_found
      (inr (inr (inr (inl (inl refl)))))

drive_one_stale_example :
    ((drive_one production [] valve flooding (some true) 12000 none).0 ≡ [])
    × ((drive_one production [] valve flooding (some true) 12000 none).1 ≡ [])
unfolding lookup
drive_one_stale_example =
    drive_one_stale production [] valve flooding (some true) 12000 none (λ h. cc)

next_look_ms-Rested_example :
    Rested production flooding 2000 (next_look_ms production flooding 2000)
unfolding close_step due_at_ms
next_look_ms-Rested_example =
    next_look_ms-Rested production flooding 2000 (omega arith) (omega arith) (omega arith) refl
