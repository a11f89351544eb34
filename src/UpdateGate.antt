-- ===== src/UpdateGate.antt =====
-- daemon/src/update_gate.rs: whether a hub may install an update now. An hour is a `u8`.
pub mod Rules
use Prim.Native.Char.{code}
use dock_neighbor_hub.Shared.{
  ℕ, ◌+◌, Bool, true, false, not, ◌&&◌, ◌||◌, List, [], ◌∷◌, Option, none, some, String, ltb, leb,
  ◌==◌, if◌then◌else◌, is_some_and, is_empty, trim, contains, to_ascii_lowercase, codes, any,
}

pub data Blocked : Type 0 where
  owner_disabled not_quiet_yet watch_armed alarm_active valve_closing cycle_running : Blocked
  version_rolled_back local_time_unknown policy_unknown containerised : Blocked

-- `Blocked::as_str`.
unfoldable pub blocked_str : Blocked → String
blocked_str owner_disabled = "automatic updates are off for this vessel"
blocked_str not_quiet_yet = "outside the quiet window"
blocked_str watch_armed = "an anchor watch or security zone is armed"
blocked_str alarm_active = "an alarm is active"
blocked_str valve_closing = "a valve close is still unconfirmed"
blocked_str cycle_running = "a watering cycle is running"
blocked_str version_rolled_back = "this version was rolled back here before"
blocked_str local_time_unknown = "the hub does not know its local time"
blocked_str policy_unknown = "the vessel's automatic-update setting has not reached this hub yet"
blocked_str containerised = "this hub runs in a container - update it by pulling a new image"

pub record UpdatePolicy : Type 0 where
  pub enabled : Bool
  pub quiet_from_hour : ℕ
  pub quiet_to_hour : ℕ

-- `UpdatePolicy::default`.
abbrev pub default_policy : UpdatePolicy
default_policy = record { enabled = true; quiet_from_hour = 2; quiet_to_hour = 5 }

unfoldable pub in_quiet_window : UpdatePolicy → ℕ → Bool
in_quiet_window p hour =
    if ltb 23 hour || (ltb 23 p.quiet_from_hour || ltb 23 p.quiet_to_hour)
    then false
    else if p.quiet_from_hour == p.quiet_to_hour
    then false
    else if ltb p.quiet_from_hour p.quiet_to_hour
    then leb p.quiet_from_hour hour && ltb hour p.quiet_to_hour
    else leb p.quiet_from_hour hour || ltb hour p.quiet_to_hour

pub record UpdateConditions : Type 0 where
  pub armed : Bool
  pub alarm_active : Bool
  pub valve_closing : Bool
  pub cycle_running : Bool
  pub local_hour : Option ℕ
  pub offer_was_rolled_back : Bool
  pub containerised : Bool

pub data Verdict : Type 0 where
  ok : Verdict
  err : Blocked → Verdict

unfoldable pub may_update : UpdatePolicy → UpdateConditions → Verdict
may_update p c =
    if c.containerised
    then err Blocked.containerised
    else if not p.enabled
    then err owner_disabled
    else if c.offer_was_rolled_back
    then err version_rolled_back
    else if c.alarm_active
    then err Blocked.alarm_active
    else if c.valve_closing
    then err Blocked.valve_closing
    else if c.cycle_running
    then err Blocked.cycle_running
    else if c.armed
    then err watch_armed
    else elim c.local_hour [
      | none ↦ err local_time_unknown
      | some h ↦ if in_quiet_window p h then ok else err not_quiet_yet
    ]

unfoldable pub may_update_known : Option UpdatePolicy → UpdateConditions → Verdict
may_update_known none c = err policy_unknown
may_update_known (some p) c = may_update p c

abbrev pub runtime_marks : List (List ℕ)
runtime_marks =
    codes "/docker/"
    ∷ codes "docker-"
    ∷ codes "/containerd"
    ∷ codes "containerd-"
    ∷ codes "kubepods"
    ∷ codes "/lxc/"
    ∷ codes "libpod"
    ∷ []

-- The function `containerised`: does this evidence say the process is inside a container?
unfoldable pub containerised_by : Bool → Bool → Option String → String → Bool
containerised_by dockerenv containerenv container_var pid1_cgroup =
    if dockerenv || containerenv
    then true
    else if is_some_and container_var (λ v. not (is_empty (trim v)))
    then true
    else let c = to_ascii_lowercase (codes pid1_cgroup) in any (λ m. contains c m) runtime_marks
