-- ===== src/Sources.antt =====
-- daemon/src/gps.rs: `SourceBackoff`, how a silent NMEA source is waited for, and `gps_source_pass`
-- of daemon/src/hub_server.rs, one read of the configured GPS source. What the drivers read is an
-- argument; the line logged and the fix handed to the geofence are part of the result.
pub mod Quiet
use dock_neighbor_hub.Shared.{
  ℕ, ◌-◌, ◌*◌, ◌^◌, min, Bool, true, false, not, ◌||◌, Option, none, some, String, ◌<>◌, is_empty,
  if◌then◌else◌, is_some, str_eq, ltb, ◌==◌, saturating_suc32,
}
use dock_neighbor_hub.Store.{GpsConfig}
use dock_neighbor_hub.Api.{Outcome, fine, failed}

abbrev pub nmea_retry_first_secs : ℕ
nmea_retry_first_secs = 5

abbrev pub nmea_retry_cap_secs : ℕ
nmea_retry_cap_secs = 300

-- `failures` is a `u32`.
pub record SourceBackoff : Type 0 where
  pub failures : ℕ

-- The line to log, only at the first failure of a run, and the seconds to wait. The shift is by at
-- most 16 places, so neither it nor the product leaves a `u64`.
unfoldable pub poll_failed : SourceBackoff → String → String → SourceBackoff × Option String × ℕ
poll_failed b host why =
    let failures = saturating_suc32 b.failures in
    let note =
      if failures == 1
      then some (
          "gps: "
          <> (host
              <> (" - the GPS source is not answering ("
                  <> (why
                      <> "); normal while the navigation system is off - the hub keeps checking in the background"))))
      else none in
    (
      record { failures = failures },
      note,
      min (nmea_retry_first_secs * 2 ^ min (failures - 1) 16) nmea_retry_cap_secs,
    )

unfoldable pub poll_succeeded : SourceBackoff → String → SourceBackoff × Option String
poll_succeeded b host = (
  record { failures = 0 },
  if ltb 0 b.failures
      then some ("gps: " <> (host <> " - the GPS source is answering again; fix acquired"))
      else none,
)

pub record GpsSourceState : Type 0 where
  pub last_note : Option String
  pub nmea : SourceBackoff

abbrev pub default_state : GpsSourceState
default_state = record { last_note = none; nmea = record { failures = 0 } }

-- What a pass leaves: the state, the wait of a failing NMEA source, the line logged and the fix.
pub record Pass (A : Type 0) : Type 0 where
  pub state : GpsSourceState
  pub wait : Option ℕ
  pub log : Option String
  pub fix : Option A

abbrev same_note : Option String → String → Bool
same_note none why = false
same_note (some note) why = str_eq note why

module _ {A : Type 0} where
  unfoldable pub nmea_pass : GpsConfig → GpsSourceState → Outcome A → Pass A
  unfolding poll_failed poll_succeeded
  nmea_pass g st (fine a) =
      let (b, note) = poll_succeeded st.nmea g.host in
      record { state = record st { nmea = b }; wait = none; log = note; fix = some a }
  nmea_pass g st (failed why) =
      let (b, note, secs) = poll_failed st.nmea g.host why in
      record { state = record st { nmea = b }; wait = some secs; log = note; fix = none }

  -- The other kinds log an error when it changes.
  unfoldable pub noted_pass : GpsConfig → GpsSourceState → Outcome A → Pass A
  noted_pass g st (fine a) = record {
    state = record st { last_note = none };
    wait = none;
    log = if is_some st.last_note then some ("gps: " <> (g.host <> " - fix acquired")) else none;
    fix = some a;
  }
  noted_pass g st (failed why) =
      if same_note st.last_note why
      then record { state = st; wait = none; log = none; fix = none }
      else record {
        state = record st { last_note = some why };
        wait = none;
        log = some ("gps: " <> (g.host <> (" - " <> why)));
        fix = none;
      }

  -- What the cradlepoint driver and the NMEA feed answer are the last two arguments.
  unfoldable pub gps_source_pass : GpsConfig → GpsSourceState → Outcome A → Outcome A → Pass A
  unfolding nmea_pass noted_pass
  gps_source_pass g st cradlepoint nmea =
      if is_empty g.host || (not g.enabled || is_empty g.dev_id)
      then record { state = default_state; wait = none; log = none; fix = none }
      else if str_eq g.kind "nmea"
      then nmea_pass g st nmea
      else if str_eq g.kind "cradlepoint"
      then noted_pass g st cradlepoint
      else noted_pass g st (failed ("no driver for GPS source kind '" <> (g.kind <> "'")))
