-- ===== src/Cadence.antt =====
-- daemon/src/cadence.rs: what is sent now and what waits for the keyframe. Times are milliseconds
-- since the epoch, as natural numbers; `failures` is a `u32`. The extension of a lease is in
-- Api/Settings, the gates of readings in Readings.
pub mod Heartbeat
pub mod Retry
pub mod Changes
pub mod Watch
use dock_neighbor_hub.Shared.{
  ℕ, suc, ◌+◌, ◌-◌, ◌*◌, ◌^◌, min, Bool, true, false, not, ◌&&◌, ◌||◌, List, [], ◌∷◌, Option, none,
  some, String, ltb, leb, ◌==◌, if◌then◌else◌, u32, is_some, str_eq, length, get_elem?, any,
  is_some_and, map, codes, to_ascii_lowercase, has_suffix,
}
use dock_neighbor_hub.RouterHealth
use dock_neighbor_hub.RouterHealth.{Params, param}

abbrev pub checkin_secs : ℕ
checkin_secs = 180 * 60

abbrev pub checkin_zone_secs : ℕ
checkin_zone_secs = 60 * 60

abbrev pub checkin_anchor_secs : ℕ
checkin_anchor_secs = 15 * 60

abbrev pub checkin_retry_base_secs : ℕ
checkin_retry_base_secs = 60

abbrev pub checkin_retry_max_secs : ℕ
checkin_retry_max_secs = 15 * 60

abbrev pub checkin_retry_max_anchor_secs : ℕ
checkin_retry_max_anchor_secs = 60

-- The shift is by at most 16 places, so neither it nor the product leaves a `u64`.
unfoldable pub checkin_retry_secs : ℕ → Bool → ℕ
checkin_retry_secs failures anchor_armed =
    let cap = if anchor_armed then checkin_retry_max_anchor_secs else checkin_retry_max_secs in
    let steps = min (failures - 1) 16 in min (checkin_retry_base_secs * 2 ^ steps) cap

abbrev pub refresh_coalesce_ms : ℕ
refresh_coalesce_ms = 5000

unfoldable pub lease_active : ℕ → ℕ → Bool
lease_active until_ms now_ms = ltb now_ms until_ms

unfoldable pub refresh_should_ring : ℕ → ℕ → Bool
refresh_should_ring last_ring_ms now_ms =
    leb last_ring_ms 0 || leb refresh_coalesce_ms (now_ms - last_ring_ms)

abbrev pub heartbeat_retry_secs : ℕ
heartbeat_retry_secs = 30

abbrev pub heartbeat_retry_max_secs : ℕ
heartbeat_retry_max_secs = 60

pub record HeartbeatClock : Type 0 where
  pub sent_sig : ℕ
  pub failures : ℕ
  pub failed_at_ms : ℕ
  pub retry_at_ms : ℕ

-- `HeartbeatClock::default`, which `reset` goes back to.
abbrev pub fresh_clock : HeartbeatClock
fresh_clock = record { sent_sig = 0; failures = 0; failed_at_ms = 0; retry_at_ms = 0 }

unfoldable pub due : HeartbeatClock → ℕ → ℕ → ℕ → ℕ → Bool
due c sig last_ok_ms now_ms interval_secs =
    if not (sig == c.sent_sig)
    then true
    else if ltb 0 c.failures && leb last_ok_ms c.failed_at_ms
    then leb c.retry_at_ms now_ms
    else leb (interval_secs * 1000) (now_ms - last_ok_ms)

unfoldable pub delivered : HeartbeatClock → ℕ → HeartbeatClock
delivered c sig = record c { sent_sig = sig; failures = 0 }

-- `failures - 1` wraps where the count has wrapped to 0.
unfoldable pub failed : HeartbeatClock → ℕ → HeartbeatClock
failed c now_ms =
    let failures = u32 (c.failures + 1) in
    let backoff =
      min (heartbeat_retry_secs * 2 ^ min (u32 (failures + 4294967295)) 4)
        heartbeat_retry_max_secs in
    record c { failures = failures; failed_at_ms = now_ms; retry_at_ms = now_ms + backoff * 1000 }

-- `is_telemetry_event`, on the code points of the name: the suffixes are ASCII, so the byte before
-- one is the code point before it.
abbrev pub is_separator : ℕ → Bool
is_separator c = c == b'.' || c == b'_'

ends_telemetry : List ℕ → List ℕ → Bool
ends_telemetry e suffix =
    ltb (length suffix + 1) (length e)
    && (has_suffix e suffix
        && is_some_and (get_elem? e (length e - length suffix - 1)) is_separator)

unfoldable pub is_telemetry_event : String → Bool
unfolding ends_telemetry
is_telemetry_event event =
    let e = to_ascii_lowercase (codes event) in
    any (ends_telemetry e) (codes "measurement" ∷ codes "change" ∷ [])

pub record RouterSent : Type 0 where
  pub up : Option String
  pub wan : Option String
  pub up_src : Option String

-- `RouterSent::from_params`.
unfoldable pub router_sent : Params → RouterSent
router_sent params = record {
  up = param params "up";
  wan = param params "wan";
  up_src = param params RouterHealth.up_src;
}

abbrev pub opt_eq : Option String → Option String → Bool
opt_eq none none = true
opt_eq none (some b) = false
opt_eq (some a) none = false
opt_eq (some a) (some b) = str_eq a b

-- `now.is_some() && now != last`.
abbrev pub moved : Option String → Option String → Bool
moved now last = is_some now && not (opt_eq now last)

unfoldable pub router_is_event : Option RouterSent → Params → Bool
unfolding router_sent
router_is_event none params = true
router_is_event (some last) params =
    let now = router_sent params in
    moved now.up last.up || (moved now.wan last.wan || moved now.up_src last.up_src)

pub record ValveSent : Type 0 where
  pub watering : Option String
  pub rf : Option String
  pub faults : List (Option String)

abbrev pub valve_faults : List String
valve_faults = "broken" ∷ "leak" ∷ "clog" ∷ "cutoff" ∷ []

-- `ValveSent::from_params`.
unfoldable pub valve_sent : Params → ValveSent
valve_sent params = record {
  watering = param params "watering";
  rf = param params "rf";
  faults = map (param params) valve_faults;
}

any_moved : List (Option String) → List (Option String) → Bool
any_moved [] ls = false
any_moved (n ∷ ns) [] = false
any_moved (n ∷ ns) (l ∷ ls) = moved n l || any_moved ns ls

unfoldable pub valve_transition : Option ValveSent → Params → Bool
unfolding valve_sent any_moved
valve_transition none params = false
valve_transition (some last) params =
    let now = valve_sent params in
    moved now.watering last.watering || (moved now.rf last.rf || any_moved now.faults last.faults)

unfoldable pub valve_measurement_due : Option ValveSent → Params → Bool
unfolding valve_sent
valve_measurement_due last params =
    opt_eq (valve_sent params).watering (some "1") || valve_transition last params
