-- ===== src/Api/Routers.antt =====
-- daemon/src/hub_server.rs: the vendors of managed routers (daemon/src/routers.rs), and how a list of
-- routers and one of its records change. The actions on them are in Routers/Actions.
pub mod Actions
pub mod Lookup
pub mod Sound
pub mod Writes
use dock_neighbor_hub.Shared.{
  ℕ, Bool, true, false, not, ◌&&◌, ◌||◌, Option, none, some, List, [], ◌∷◌, String, ◌<>◌, is_empty,
  if◌then◌else◌, trim, str_eq, lowercase, lookup, insert, remove, length, ◌==◌, has_prefix, codes,
}
use dock_neighbor_hub.LinktapRuntime.{unwrap_or}
use dock_neighbor_hub.Access.{may_administer, may_control}
use dock_neighbor_hub.Store.{RouterConfig, HubConfig, default_router, read_config}
use dock_neighbor_hub.Api.{
  Caller, Answer, ok_json, refusal, Outcome, fine, failed, World, Rt, Effect, router_wake,
  gps_switched, apn_set, rebooted, RouterReq, RouterReads, Target, Snapshot, GpsSupport, supports,
  lacks, unknown, ApnConfig, ring, store, reading,
}
use dock_neighbor_hub.Api.Settings.{trimmed, lowered, kept_secret}

abbrev pub vendor_supported : String → Bool
vendor_supported v = str_eq v "cradlepoint" || (str_eq v "peplink" || str_eq v "starlink")

abbrev pub needs_password : String → Bool
needs_password vendor = not (str_eq vendor "starlink")

-- `Driver::new`: its refusal.
abbrev pub driver_refusal : String → Option String
driver_refusal v =
    if vendor_supported v
    then none
    else some ("this hub cannot manage a '" <> (v <> "' router yet"))

abbrev unsupported : String → String → Option String
unsupported vendor what = some (
    what
    <> (" is not supported on a "
        <> (vendor <> " through the hub — use the device's own app or admin pages")))

abbrev pub unsupported_action : String → String → Option String
unsupported_action vendor action =
    if str_eq vendor "peplink"
    then if str_eq action "apn"
      then unsupported "Peplink" "reading or setting the APN"
      else if str_eq action "reboot"
      then unsupported "Peplink" "rebooting"
      else if str_eq action "read"
      then unsupported "Peplink" "the read diagnostic"
      else none
    else if str_eq vendor "starlink"
    then if str_eq action "apn"
      then unsupported "Starlink" "an APN — a dish has none;"
      else if str_eq action "read"
      then unsupported "Starlink" "the read diagnostic"
      else if str_eq action "password"
      then unsupported "Starlink" "a sign-in — a dish answers its LAN with no password;"
      else none
    else none

abbrev pub target_of : RouterConfig → Target
target_of r = record {
  vendor = r.vendor;
  host = r.host;
  port = r.port;
  username = r.username;
  password = r.password;
}

unfoldable pub find_router : String → List RouterConfig → Option RouterConfig
find_router id [] = none
find_router id (r ∷ rs) = if str_eq r.id id then some r else find_router id rs

-- The first router of the id is replaced, or the router added at the end.
unfoldable pub put_router : RouterConfig → List RouterConfig → List RouterConfig
put_router r [] = r ∷ []
put_router r (x ∷ rs) = if str_eq x.id r.id then r ∷ rs else x ∷ put_router r rs

-- The first router of the id is changed.
unfoldable pub edit_router :
    String → (RouterConfig → RouterConfig) → List RouterConfig → List RouterConfig
edit_router id change [] = []
edit_router id change (x ∷ rs) =
    if str_eq x.id id then change x ∷ rs else x ∷ edit_router id change rs

unfoldable pub drop_router : String → List RouterConfig → List RouterConfig
drop_router id [] = []
drop_router id (x ∷ rs) = let rest = drop_router id rs in if str_eq x.id id then rest else x ∷ rest

abbrev pub default_vendor : String → String
default_vendor v = if is_empty v then "cradlepoint" else v

-- The router of an `add`, before its refusals.
unfoldable pub edited : RouterReq → String → RouterConfig → RouterConfig
edited req id r = record r {
  id = id;
  vendor = default_vendor (unwrap_or (lowered req.vendor) r.vendor);
  name = unwrap_or (trimmed req.name) r.name;
  host = unwrap_or (trimmed req.host) r.host;
  port = unwrap_or req.port r.port;
  username = unwrap_or (trimmed req.username) r.username;
  password = kept_secret req.password r.password;
  agent_token = kept_secret req.agent_token r.agent_token;
  gps_enabled = unwrap_or req.gps_enabled r.gps_enabled;
  gps_dev_id = unwrap_or (trimmed req.gps_dev_id) r.gps_dev_id;
  poll_secs = unwrap_or req.poll_secs r.poll_secs;
  enabled = unwrap_or req.enabled r.enabled;
}

abbrev pub gps_record_required : String
gps_record_required = "gpsDevId (the brv_gps_… record) is required when gpsEnabled"

unfoldable pub add_refusal : RouterConfig → Option String
add_refusal r =
    if not (vendor_supported r.vendor)
    then driver_refusal r.vendor
    else if is_empty r.host
    then some "host is required"
    else if needs_password r.vendor && is_empty r.password
    then some "the router's admin password is required"
    else if r.gps_enabled && is_empty r.gps_dev_id
    then some gps_record_required
    else none

-- A dish keeps no sign-in.
abbrev pub signed : RouterConfig → RouterConfig
signed r = if needs_password r.vendor then r else record r { username = ""; password = "" }

abbrev pub named : Option String → RouterConfig → RouterConfig
named model r = if is_empty r.name then record r { name = unwrap_or model "Router" } else r

abbrev pub gps_unsupported : String
gps_unsupported = "this router reports that it has no GPS, so GPS cannot be turned on for it"

abbrev pub is_lacking : Option GpsSupport → Bool
is_lacking (some lacks) = true
is_lacking (some supports) = false
is_lacking (some unknown) = false
is_lacking none = false

abbrev pub gps_on_refusal : Bool → Option GpsSupport → Option String
gps_on_refusal want_on supported =
    if want_on && is_lacking supported then some gps_unsupported else none

abbrev pub asks_on : Option Bool → Bool
asks_on (some b) = b
asks_on none = false

abbrev pub default_snapshot : Snapshot
default_snapshot = record { model = none; gps_supported = none; apn = none; error = none }

-- `entry(id).or_default()`, changed.
abbrev pub touch :
    String → (Snapshot → Snapshot) → List (String × Snapshot) → List (String × Snapshot)
touch id change states = insert id (change (unwrap_or (lookup id states) default_snapshot)) states

-- `filter(|m| !m.is_empty())` of a trimmed text.
abbrev pub given_text : Option String → Option String
given_text none = none
given_text (some s) = if is_empty s then none else some s

abbrev pub is_per_router : String → Bool
is_per_router action =
    str_eq action "refresh"
    || (str_eq action "read"
        || (str_eq action "apn"
            || (str_eq action "gps" || (str_eq action "password" || str_eq action "reboot"))))

abbrev pub is_reading : String → Bool
is_reading action = str_eq action "refresh" || str_eq action "read"
