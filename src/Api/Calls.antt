-- ===== src/Api/Calls.antt =====
-- daemon/src/hub_server.rs: the two doors to the actions. `dispatch` is the one that the relay uses,
-- with a caller whom the cloud vouches for; `lan_call` first asks for a member's key.
use dock_neighbor_hub.Shared.{ℕ, Option, none, some, List, String, if◌then◌else◌, str_eq}
use dock_neighbor_hub.Float.{Float64}
use dock_neighbor_hub.LinktapRuntime.{Print}
use dock_neighbor_hub.KeySync.{note_door_miss}
use dock_neighbor_hub.Access.{MemberKey, authorize, blank}
use dock_neighbor_hub.Api.{Caller, Answer, ok_json, refusal, World, Rt, key_wake, Json, ring}
use dock_neighbor_hub.Api.Settings.{
  do_config, do_token, do_clear, do_update, do_logs, do_gps, do_gps_discover, do_refresh, do_watch,
}
use dock_neighbor_hub.Api.Routers.Actions.{do_routers}
use dock_neighbor_hub.Api.Sensors.{do_sensors}
use dock_neighbor_hub.Api.Valves.{do_valve}

-- The actions, of which `do_status`, `do_routers_list` and `do_sensors_list` only read.
pub data Endpoint : Type 0 where
  status logs config token clear update valve gps gps_discover routers_list : Endpoint
  routers sensors_list sensors refresh watch nowhere : Endpoint

unfoldable pub get_endpoint : String → Endpoint
get_endpoint path =
    if str_eq path "/api/hub/status"
    then status
    else if str_eq path "/api/hub/logs"
    then logs
    else if str_eq path "/api/hub/routers"
    then routers_list
    else if str_eq path "/api/hub/sensors"
    then sensors_list
    else nowhere

unfoldable pub post_endpoint : String → Endpoint
post_endpoint path =
    if str_eq path "/api/hub/config"
    then config
    else if str_eq path "/api/hub/token"
    then token
    else if str_eq path "/api/hub/clear"
    then clear
    else if str_eq path "/api/hub/update"
    then update
    else if str_eq path "/api/hub/linktap/valve"
    then valve
    else if str_eq path "/api/hub/gps"
    then gps
    else if str_eq path "/api/hub/gps/discover"
    then gps_discover
    else if str_eq path "/api/hub/routers"
    then routers
    else if str_eq path "/api/hub/sensors"
    then sensors
    else if str_eq path "/api/hub/refresh"
    then refresh
    else if str_eq path "/api/hub/watch"
    then watch
    else nowhere

unfoldable pub endpoint_of : String → String → Endpoint
unfolding get_endpoint post_endpoint
endpoint_of method path =
    if str_eq method "GET"
    then get_endpoint path
    else if str_eq method "POST"
    then post_endpoint path
    else nowhere

module _ {V : Type 0} ⦃f : Float64 V⦄ (print : Print V) (json : Json V) where
  unfoldable pub serve_endpoint : World → Rt V → Caller → List ℕ → Endpoint → Rt V × Answer
  serve_endpoint w rt caller body status = (rt, ok_json)
  serve_endpoint w rt caller body logs = do_logs rt caller
  serve_endpoint w rt caller body config = do_config w rt caller (json.config_req body)
  serve_endpoint w rt caller body token = do_token w rt caller (json.token_req body)
  serve_endpoint w rt caller body clear = do_clear w rt caller
  serve_endpoint w rt caller body update = do_update w rt caller
  serve_endpoint w rt caller body valve = do_valve w rt caller (json.valve_req body)
  serve_endpoint w rt caller body gps = do_gps w rt caller (json.gps_req body)
  serve_endpoint w rt caller body gps_discover = do_gps_discover rt caller
  serve_endpoint w rt caller body routers_list = (rt, ok_json)
  serve_endpoint w rt caller body routers = do_routers w rt caller (json.router_req body)
  serve_endpoint w rt caller body sensors_list = (rt, ok_json)
  serve_endpoint w rt caller body sensors = do_sensors w rt caller (json.sensor_req body)
  serve_endpoint w rt caller body refresh = do_refresh w rt caller
  serve_endpoint w rt caller body watch = do_watch print w rt caller body json.watch_req
  serve_endpoint w rt caller body nowhere = (rt, refusal 404 "no such hub endpoint")

  unfoldable pub dispatch : World → Rt V → Caller → String → String → List ℕ → Rt V × Answer
  unfolding serve_endpoint endpoint_of
  dispatch w rt caller method path body = serve_endpoint w rt caller body (endpoint_of method path)

  abbrev note_unknown_key : World → Rt V → Rt V
  note_unknown_key w rt =
      let (ks, rang) = note_door_miss rt.key_sync w.now_ms in
      let rt' = record rt { key_sync = ks } in if rang then ring key_wake rt' else rt'

  unfoldable pub let_in :
      World → Rt V → List ℕ → String → String → List ℕ → Option MemberKey → Rt V × Answer
  unfolding dispatch
  let_in w rt presented method path body (some k) =
      dispatch w rt (record { uid = k.uid; role = k.role }) method path body
  let_in w rt presented method path body none = (
    if blank presented then rt else note_unknown_key w rt,
    refusal 401 "missing or unknown API key",
  )

  -- `lan_call`, on the key presented, `[]` without one.
  unfoldable pub lan_call : World → Rt V → List ℕ → String → String → List ℕ → Rt V × Answer
  unfolding let_in
  lan_call w rt presented method path body =
      let_in w rt presented method path body (authorize rt.keys presented)
