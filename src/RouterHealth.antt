-- ===== src/RouterHealth.antt =====
-- daemon/src/router_health.rs: when a router, modem or dish is reported down. Times are milliseconds
-- since the epoch, as natural numbers; `consecutive_failures` is a `u32`.
pub mod Grace
pub mod Reports
use dock_neighbor_hub.Shared.{
  ℕ, zero, suc, ◌+◌, ◌-◌, ◌*◌, ◌^◌, min, max, Bool, true, false, not, ◌&&◌, ◌||◌, List, [], ◌∷◌,
  ◌++◌, Option, none, some, String, ltb, leb, ◌==◌, if◌then◌else◌, saturating_suc32, is_some_and,
  map_or, is_empty, trim, str_eq, keep, any, length,
}

abbrev pub up_src : String
up_src = "upSrc"

abbrev pub up_src_read : String
up_src_read = "read"

abbrev pub up_src_unread : String
up_src_unread = "unread"

abbrev pub reason_key : String
reason_key = "reason"

abbrev pub Params : Type 0
Params = List (String × String)

unfoldable pub up_read : Bool → Params
up_read up = ("up", if up then "1" else "0") ∷ (up_src, up_src_read) ∷ []

abbrev pub down_grace_ms : ℕ
down_grace_ms = 45000

abbrev pub first_retry_ms : ℕ
first_retry_ms = 5000

abbrev pub max_retry_ms : ℕ
max_retry_ms = 60000

pub data Sample : Type 0 where
  up : Sample
  reported_down : Option ℕ → Sample
  failed : Sample

pub data Reported : Type 0 where
  up down : Reported

pub data Verdict : Type 0 where
  report : Bool → Verdict
  hold went_down still_down : Verdict

pub record RouterHealth : Type 0 where
  pub first_failure_at : Option ℕ
  pub consecutive_failures : ℕ
  pub next_retry_at : Option ℕ
  pub reported : Reported

-- `RouterHealth::default`.
abbrev pub healthy : RouterHealth
healthy = record {
  first_failure_at = none;
  consecutive_failures = 0;
  next_retry_at = none;
  reported = Reported.up;
}

-- A shift by at most 16 places of 5000 stays within an `i64`.
unfoldable pub retry_delay_ms : ℕ → ℕ
retry_delay_ms n =
    let doublings = min (n - 1) 16 in min (first_retry_ms * 2 ^ doublings) max_retry_ms

abbrev pub is_down : Reported → Bool
is_down Reported.up = false
is_down Reported.down = true

-- The part of `observe` that a bad sample reaches.
observe_bad : RouterHealth → Option ℕ → ℕ → ℕ → RouterHealth × Verdict
observe_bad r measured_ms started_ms finished_ms =
    let failures = saturating_suc32 r.consecutive_failures in
    let first = map_or r.first_failure_at started_ms (λ t. t) in
    let backoff_at = finished_ms + retry_delay_ms failures in
    let measured = is_some_and measured_ms (λ m. leb down_grace_ms m) in
    let waited = leb 2 failures && leb down_grace_ms (finished_ms - first) in
    let bad = record r { first_failure_at = some first; consecutive_failures = failures } in
    if is_down r.reported
    then (record bad { next_retry_at = some backoff_at }, still_down)
    else if measured || waited
    then (record bad { reported = Reported.down; next_retry_at = some backoff_at }, went_down)
    else (
      record bad {
        next_retry_at = some (max (min backoff_at (first + down_grace_ms)) finished_ms);
      },
      hold,
    )

unfoldable pub observe : RouterHealth → Sample → ℕ → ℕ → RouterHealth × Verdict
unfolding observe_bad
observe r Sample.up started_ms finished_ms = (healthy, report (is_down r.reported))
observe r (reported_down measured_ms) started_ms finished_ms =
    observe_bad r measured_ms started_ms finished_ms
observe r failed started_ms finished_ms = observe_bad r none started_ms finished_ms

unfoldable pub due : RouterHealth → ℕ → Option ℕ → ℕ → Bool
due r now_ms last_poll_ms cadence_ms =
    map_or last_poll_ms true (λ t. leb cadence_ms (now_ms - t))
    || is_some_and r.next_retry_at (λ t. leb t now_ms)

-- The param vectors: `iter().rev().find`, and the insertion right after the first `up`.
unfoldable pub param : Params → String → Option String
param [] key = none
param ((k, v) ∷ ps) key =
    let later = param ps key in
    elim later [ some w ↦ some w | none ↦ if str_eq k key then some v else none ]

after_up : Params → String × String → Params
after_up [] entry = []
after_up ((k, v) ∷ rest) entry =
    if str_eq k "up" then (k, v) ∷ entry ∷ rest else (k, v) ∷ after_up rest entry

insert_after_up : Params → String × String → Params
unfolding after_up
insert_after_up ps entry = if any (λ p. str_eq p.0 "up") ps then after_up ps entry else entry ∷ ps

-- The fields that are carried over, of the last reading or of the identity.
carried : Option Params → Params → Params
carried (some l) identity = keep (λ p. not (str_eq p.0 up_src) && not (str_eq p.0 reason_key)) l
carried none identity =
    keep (λ p. not (str_eq p.0 "up") && (not (str_eq p.0 up_src) && not (str_eq p.0 reason_key)))
      identity

reason_entry : Option String → Params
reason_entry none = []
reason_entry (some r) = if is_empty (trim r) then [] else (reason_key, trim r) ∷ []

unfoldable pub unread_params : Option Params → Option String → Params → Params
unfolding carried insert_after_up reason_entry
unread_params last reason identity =
    insert_after_up (carried last identity) (up_src, up_src_unread) ++ reason_entry reason

unfoldable pub sample_of : Option Params → Option ℕ → Sample
sample_of params measured_ms =
    let get : String → Option String = λ key. elim params [ none ↦ none | some p ↦ param p key ] in
    if is_some_and (get up_src) (λ s. str_eq s up_src_unread)
    then Sample.up
    else if is_some_and (get "up") (λ v. str_eq v "0")
    then reported_down measured_ms
    else Sample.up

vendors_seen : List String → List String → List String
vendors_seen seen [] = seen
vendors_seen seen (vendor ∷ rest) =
    let v = trim vendor in
    vendors_seen
      (if not (is_empty v) && not (any (λ s. str_eq s v) seen) then seen ++ (v ∷ []) else seen) rest

unfoldable pub common_mode_failure : List String → Bool
unfolding vendors_seen
common_mode_failure failed_vendors = leb 2 (length (vendors_seen [] failed_vendors))
