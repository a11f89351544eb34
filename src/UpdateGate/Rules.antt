-- ===== src/UpdateGate/Rules.antt =====
-- The verdicts of the gate, against its rules written out.
use dock_neighbor_hub.Shared.{
  ℕ, ◌+◌, ◌-◌, ◌%◌, subst, Option-cases, ◌<◌, ◌≡◌, ◌↔◌, refl, inl, inr, true, false, Option, none,
  some, arith,
}
use dock_neighbor_hub.UpdateGate.{
  Blocked, UpdatePolicy, UpdateConditions, ok, err, in_quiet_window, may_update, may_update_known,
}

-- What has to hold for an update to be installed now.
pub record Safe (p : UpdatePolicy) (c : UpdateConditions) : Type 0 where
  pub bare : c.containerised ≡ false
  pub consented : p.enabled ≡ true
  pub fresh : c.offer_was_rolled_back ≡ false
  pub quiet : c.alarm_active ≡ false
  pub shut : c.valve_closing ≡ false
  pub dry : c.cycle_running ≡ false
  pub disarmed : c.armed ≡ false
  pub clock : (h : ℕ) × (c.local_hour ≡ some h) × (in_quiet_window p h ≡ true)

may_update-Safe : (p : UpdatePolicy) (c : UpdateConditions) → may_update p c ≡ ok → Safe p c
unfolding may_update
may_update-Safe p c h = elim (Option-cases c.local_hour) [
  | inl e ↦ absurd (ground arith)
  | inr (hour, e) ↦ record {
    bare = ground arith;
    consented = ground arith;
    fresh = ground arith;
    quiet = ground arith;
    shut = ground arith;
    dry = ground arith;
    disarmed = ground arith;
    clock = (hour, e, ground arith);
  }
]

Safe-may_update : (p : UpdatePolicy) (c : UpdateConditions) → Safe p c → may_update p c ≡ ok
unfolding may_update
Safe-may_update p c s = ground arith

-- An update is let through exactly when the owner's setting has reached the hub and every rule is met.
pub may_update_known_iff :
    (p : Option UpdatePolicy) (c : UpdateConditions)
    → (may_update_known p c ≡ ok) ↔ ((q : UpdatePolicy) × (p ≡ some q) × Safe q c)
unfolding may_update_known
may_update_known_iff none c = (λ h. cc, λ (q, e, _). cc)
may_update_known_iff (some p) c = (
  λ h. (p, refl, may_update-Safe p c h),
  λ (q, e, s). let e' : q ≡ p = cc in Safe-may_update p c (subst (λ r. Safe r c) e' s),
)

-- No physical rule forbids a restart.
abbrev pub Calm : UpdateConditions → Type 0
Calm c =
    (c.alarm_active ≡ false)
    × (c.valve_closing ≡ false)
    × (c.cycle_running ≡ false)
    × (c.armed ≡ false)

-- What a refusal says of the vessel.
abbrev pub Holds : Option UpdatePolicy → UpdateConditions → Blocked → Type 0
Holds p c Blocked.policy_unknown = p ≡ none
Holds p c Blocked.containerised = c.containerised ≡ true
Holds p c Blocked.owner_disabled = (q : UpdatePolicy) × (p ≡ some q) × (q.enabled ≡ false)
Holds p c Blocked.version_rolled_back = c.offer_was_rolled_back ≡ true
Holds p c Blocked.alarm_active = c.alarm_active ≡ true
Holds p c Blocked.valve_closing = c.valve_closing ≡ true
Holds p c Blocked.cycle_running = c.cycle_running ≡ true
Holds p c Blocked.watch_armed = c.armed ≡ true
Holds p c Blocked.local_time_unknown = Calm c × (c.local_hour ≡ none)
Holds p c Blocked.not_quiet_yet =
    (q : UpdatePolicy) × (h : ℕ) × Calm c
    × (p ≡ some q)
    × (c.local_hour ≡ some h)
    × (in_quiet_window q h ≡ false)

-- A refusal names a rule that does forbid the update, and names the clock only when no alarm, close,
-- cycle or armed watch forbids it.
pub may_update_known_refusal :
    (p : Option UpdatePolicy) (c : UpdateConditions) (b : Blocked)
    → may_update_known p c ≡ err b
    → Holds p c b
unfolding may_update_known may_update
may_update_known_refusal none c Blocked.policy_unknown h = refl
may_update_known_refusal none c b h = absurd (ground arith)
may_update_known_refusal (some p) c Blocked.owner_disabled h = (p, refl, ground arith)
may_update_known_refusal (some p) c Blocked.not_quiet_yet h = elim (Option-cases c.local_hour) [
  | inl e ↦ absurd (ground arith)
  | inr (hour, e) ↦ (p, hour, ground arith, refl, e, ground arith)
]
may_update_known_refusal (some p) c b h = ground arith

-- A window admits an hour exactly when all three hours are on the clock and the hour comes before
-- the end, both counted from the start on a 24-hour dial; so a window with equal ends admits none.
pub in_quiet_window_iff :
    (p : UpdatePolicy) (hour : ℕ)
    → (in_quiet_window p hour ≡ true) ↔ (
        (hour < 24)
        × (p.quiet_from_hour < 24)
        × (p.quiet_to_hour < 24)
        × ((hour + 24 - p.quiet_from_hour) % 24 < (p.quiet_to_hour + 24 - p.quiet_from_hour) % 24))
unfolding in_quiet_window
in_quiet_window_iff p hour = ground arith
