-- ===== src/TrayState.antt =====
-- daemon/src/tray_state.rs: the tray monitor's decisions. Drawing the status dot is not modelled.
pub mod Alerts
use dock_neighbor_hub.Shared.{
  ℕ, Bool, true, false, not, ◌&&◌, ◌||◌, Option, none, some, String, if◌then◌else◌,
}

pub record Observation : Type 0 where
  pub answering : Bool
  pub registered : Bool
  pub binary_present : Bool
  pub service_present : Bool

pub data Icon : Type 0 where
  ok needs_signing bad absent : Icon

pub data Alert : Type 0 where
  removed_by_security_software stopped recovered : Alert

-- `status_rgb`.
unfoldable pub status_rgb : Icon → ℕ × ℕ × ℕ
status_rgb ok = (0x22, 0xA5, 0x5A)
status_rgb needs_signing = (0xE0, 0x9B, 0x20)
status_rgb bad = (0xC8, 0x32, 0x32)
status_rgb absent = (0x8A, 0x8A, 0x8A)

pub record Monitor : Type 0 where
  pub last : Option Icon
  pub seen_working : Bool
  pub seen_installed : Bool
  pub last_reason : Option Alert

-- `Monitor::new`.
abbrev pub new : Monitor
new = record { last = none; seen_working = false; seen_installed = false; last_reason = none }

abbrev pub is_bad : Icon → Bool
is_bad bad = true
is_bad ok = false
is_bad needs_signing = false
is_bad absent = false

abbrev pub is_working : Icon → Bool
is_working ok = true
is_working needs_signing = true
is_working bad = false
is_working absent = false

abbrev pub alert_eq : Alert → Alert → Bool
alert_eq removed_by_security_software removed_by_security_software = true
alert_eq stopped stopped = true
alert_eq recovered recovered = true
alert_eq _ _ = false

-- `Monitor::classify`, on the two flags of the monitor that it reads.
unfoldable pub classify : Bool → Bool → Observation → Icon
classify seen_working seen_installed o =
    if o.answering
    then (if o.registered then ok else needs_signing)
    else if o.service_present || (o.binary_present || (seen_working || seen_installed))
    then bad
    else absent

-- `Monitor::diagnose`.
unfoldable pub diagnose : Observation → Alert
diagnose o =
    if o.service_present && not o.binary_present
    then removed_by_security_software
    else if not o.binary_present
    then removed_by_security_software
    else stopped

-- Was the last icon bad?
abbrev pub was_bad : Option Icon → Bool
was_bad none = false
was_bad (some i) = is_bad i

abbrev pub same_reason : Option Alert → Alert → Bool
same_reason none r = false
same_reason (some a) r = alert_eq a r

alert_of : Option Icon → Option Alert → Icon → Alert → Option Alert
alert_of none last_reason icon reason = none
alert_of (some last) last_reason icon reason =
    if is_bad icon
    then (if not (is_bad last) || not (same_reason last_reason reason) then some reason else none)
    else if is_bad last
    then some recovered
    else none

abbrev pub or_reason : Option Alert → Option Alert → Option Alert
or_reason none b = b
or_reason (some a) b = some a

unfoldable pub observe : Monitor → Observation → Monitor × Icon × Option Alert
unfolding alert_of
observe m o =
    let installed = m.seen_installed || (o.service_present || o.binary_present) in
    let icon = classify m.seen_working installed o in
    let alert = alert_of m.last m.last_reason icon (diagnose o) in
    let reason = if is_bad icon then or_reason alert m.last_reason else none in
    (
      record {
        last = some icon;
        seen_working = m.seen_working || is_working icon;
        seen_installed = installed;
        last_reason = reason;
      },
      icon,
      alert,
    )
