-- ===== src/CloseDriver/Slots.antt =====
-- One close in flight for each valve: what a claim and a compare-and-set leave in the slots.
use dock_neighbor_hub.Shared.{
  ℕ, ◌+◌, u32, ◌≡◌, ◌∙◌, ◌≢◌, inl, inr, Bool, true, false, List, [], Option, none, some, String,
  arith, if◌then◌else◌, lookup, insert, lookup-insert, lookup-remove, str_eq, str_eq_iff,
  str_eq_self, ◌&&◌, ◌↔◌, Option-cases,
}
use dock_neighbor_hub.Linktap.{normalize_dev_id}
use dock_neighbor_hub.CloseWatch.{CloseCause, CloseSchedule, CloseWatch, overrides, opened}
use dock_neighbor_hub.CloseDriver.{
  Closes, watch_eq_iff, claim_close, settle_close, tell_owner, act_on_step, drive_one, holds, claim,
}

lookup-insert_self :
    {V : Type 0} (k : String) (v : V) (m : List (String × V)) → lookup k (insert k v m) ≡ some v
lookup-insert_self k v m = rw (lookup-insert k k v m, str_eq_self k)

-- While a close is in flight for a valve, a second claim is let through exactly when it is a flood
-- and the first is not; a refused claim changes no slot and has no effect.
pub claim_close_twice :
    (closes : Closes) (dev_id : String) (cause again : CloseCause) (now later : ℕ)
    → (claim_close closes dev_id cause now).0 ≡ true
    → let first = claim_close closes dev_id cause now in
      let second = claim_close first.1 dev_id again later in
      (second.0 ≡ overrides again cause)
      × (second.0 ≡ false → (second.1 ≡ first.1) × (second.2 ≡ []))
unfolding claim_close opened claim
claim_close_twice closes dev_id cause again now later h =
    ground (arith, lookup-insert_self (normalize_dev_id dev_id) (opened cause now) closes)

-- A settled write happens exactly when the slot still holds the watch that was decided about.
pub settle_close-holds :
    (closes : Closes) (id : String) (was : CloseWatch) (next : Option CloseWatch)
    → ((settle_close closes id was next).0 ≡ true) ↔ (lookup id closes ≡ some was)
unfolding settle_close holds
settle_close-holds closes id was next = elim (Option-cases (lookup id closes)) [
  | inl e ↦ rw e (ground arith)
  | inr (w, e) ↦ rw e (ground (arith, watch_eq_iff w was))
]

pub lookup-settle_close :
    (closes : Closes) (id j : String) (was : CloseWatch) (next : Option CloseWatch)
    → let r = settle_close closes id was next in
      lookup j r.1 ≡ (if r.0 && str_eq id j then next else lookup j closes)
unfolding settle_close
lookup-settle_close closes id j was none = ground (arith, lookup-remove id j closes)
lookup-settle_close closes id j was (some w) = ground (arith, lookup-insert id j w closes)

settle_close_lost :
    (closes : Closes) (id : String) (was : CloseWatch) (next : Option CloseWatch)
    → lookup id closes ≢ some was
    → settle_close closes id was next ≡ (false, closes)
unfolding settle_close holds
settle_close_lost closes id was next h = elim (Option-cases (lookup id closes)) [
  | inl e ↦ rw (e, holds)
  | inr (w, e) ↦ rw (e, holds) (ground (arith, watch_eq_iff w was))
]

act_on_step_stale :
    (sched : CloseSchedule) (closes : Closes) (id : String) (w : CloseWatch) (watering : Bool)
    (now_ms : ℕ) (soonest : Option ℕ)
    → lookup id closes ≢ some w
    → let r = act_on_step sched closes id w watering now_ms soonest in (r.0 ≡ closes) × (r.1 ≡ [])
unfolding act_on_step
act_on_step_stale sched closes id w watering now_ms soonest h = ground (
  arith,
  settle_close_lost closes id w none h,
  settle_close_lost closes id w
      (some (record w { attempts = u32 (w.attempts + 1); last_ms = now_ms })) h,
)

-- A pass over a valve whose slot has been taken over since the snapshot sends nothing and changes
-- no slot, whatever the gateway answers.
pub drive_one_stale :
    (sched : CloseSchedule) (closes : Closes) (id : String) (w : CloseWatch) (status : Option Bool)
    (now_ms : ℕ) (soonest : Option ℕ)
    → lookup id closes ≢ some w
    → let r = drive_one sched closes id w status now_ms soonest in (r.0 ≡ closes) × (r.1 ≡ [])
unfolding drive_one tell_owner
drive_one_stale sched closes id w status now_ms soonest h = ground (
  arith,
  settle_close_lost closes id w (some (record w { alerted = true })) h,
  act_on_step_stale sched closes id w true now_ms soonest h,
  act_on_step_stale sched closes id w false now_ms soonest h,
)

settle_close_elsewhere :
    (closes : Closes) (id j : String) (was : CloseWatch) (next : Option CloseWatch)
    → id ≢ j
    → lookup j (settle_close closes id was next).1 ≡ lookup j closes
settle_close_elsewhere closes id j was next h =
    ground (arith, lookup-settle_close closes id j was next, str_eq_iff id j)

act_on_step_elsewhere :
    (sched : CloseSchedule) (closes : Closes) (id j : String) (w : CloseWatch) (watering : Bool)
    (now_ms : ℕ) (soonest : Option ℕ)
    → id ≢ j
    → lookup j (act_on_step sched closes id w watering now_ms soonest).0 ≡ lookup j closes
unfolding act_on_step
act_on_step_elsewhere sched closes id j w watering now_ms soonest h = ground (
  arith,
  settle_close_elsewhere closes id j w none h,
  settle_close_elsewhere closes id j w
      (some (record w { attempts = u32 (w.attempts + 1); last_ms = now_ms })) h,
)

tell_owner_elsewhere :
    (sched : CloseSchedule) (closes : Closes) (id j : String) (w : CloseWatch) (watering : Bool)
    (now_ms : ℕ)
    → id ≢ j
    → lookup j (tell_owner sched closes id w watering now_ms).1 ≡ lookup j closes
unfolding tell_owner
tell_owner_elsewhere sched closes id j w watering now_ms h =
    ground (arith, settle_close_elsewhere closes id j w (some (record w { alerted = true })) h)

-- A pass over one valve leaves every other valve's slot as it was.
pub drive_one_elsewhere :
    (sched : CloseSchedule) (closes : Closes) (id j : String) (w : CloseWatch)
    (status : Option Bool) (now_ms : ℕ) (soonest : Option ℕ)
    → id ≢ j
    → lookup j (drive_one sched closes id w status now_ms soonest).0 ≡ lookup j closes
unfolding drive_one
drive_one_elsewhere sched closes id j w status now_ms soonest h =
    let watering : Bool = elim status [ none ↦ true | some b ↦ b ] in
    let told = tell_owner sched closes id w watering now_ms in
    elim (Option-cases told.0) [
      | inl e ↦ rw (e, drive_one) (tell_owner_elsewhere sched closes id j w watering now_ms h)
      | inr (w', e) ↦
          rw (e, drive_one)
            (act_on_step_elsewhere sched told.1 id j w' watering now_ms soonest h
              ∙ tell_owner_elsewhere sched closes id j w watering now_ms h)
    ]
