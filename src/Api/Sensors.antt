-- ===== src/Api/Sensors.antt =====
-- daemon/src/hub_server.rs: `do_sensors`; `substitute_hub_host` and `SensorState::pending` of
-- daemon/src/sensors.rs.
use dock_neighbor_hub.Shared.{
  ℕ, zero, suc, ◌-◌, Bool, true, false, not, ◌&&◌, ◌||◌, List, [], ◌∷◌, ◌++◌, String, ◌<>◌,
  is_empty, if◌then◌else◌, trim, str_eq, lowercase, insert, remove, length, has_prefix, contains,
  codes, map, any, keep,
}
use dock_neighbor_hub.LinktapRuntime.{unwrap_or}
use dock_neighbor_hub.Access.{may_administer}
use dock_neighbor_hub.Store.{DesiredHook, SensorJob, read_config}
use dock_neighbor_hub.Api.{
  Caller, Answer, ok_json, refusal, Outcome, World, Rt, sensor_wake, SensorReq, SensorState, ring,
  store, reading,
}

-- `str::replace`: the matches from the left, the first `skip` code points dropped.
unfoldable pub replaced : List ℕ → List ℕ → ℕ → List ℕ → List ℕ
replaced p r skip [] = []
replaced p r (suc skip) (c ∷ s) = replaced p r skip s
replaced p r zero (c ∷ s) =
    let matched = r ++ replaced p r (length p - 1) s in
    let rest = c ∷ replaced p r zero s in if has_prefix (c ∷ s) p then matched else rest

abbrev pub hub_mark : List ℕ
hub_mark = codes "__HUB__"

abbrev pub has_mark : List ℕ → Bool
has_mark url = contains url hub_mark

abbrev pub is_none_left : List (List ℕ) → Bool
is_none_left [] = true
is_none_left (u ∷ us) = false

abbrev addressed : List ℕ → DesiredHook → DesiredHook
unfolding replaced
addressed lan_ip h = record h { urls = map (λ u. replaced hub_mark lan_ip 0 u) h.urls }

unfoldable pub substitute_hub_host : List ℕ → List DesiredHook → List DesiredHook
unfolding addressed
substitute_hub_host lan_ip hooks = map (addressed lan_ip) hooks

abbrev pub without_mark : DesiredHook → DesiredHook
without_mark h = record h { urls = keep (λ u. not (has_mark u)) h.urls }

-- The hooks with the hub's address in place, or without those that need one.
unfoldable pub placed : List (List ℕ) → List DesiredHook → List DesiredHook
unfolding substitute_hub_host
placed local_ips hooks =
    if any (λ h. any has_mark h.urls) hooks
    then elim local_ips [
      | ip ∷ others ↦ substitute_hub_host ip hooks
      | [] ↦ keep (λ h. not (is_none_left h.urls)) (map without_mark hooks)
    ]
    else hooks

abbrev pub is_no_hook : List DesiredHook → Bool
is_no_hook [] = true
is_no_hook (h ∷ hs) = false

abbrev or_local : String → List String → List String
or_local id [] = (id <> ".local") ∷ []
or_local id (h ∷ hs) = h ∷ hs

unfoldable pub hosts_of : String → List String → List String
hosts_of id hosts =
    or_local id (keep (λ h. not (is_empty h) && not (str_eq h "0.0.0.0")) (map trim hosts))

abbrev pub other_jobs : String → List SensorJob → List SensorJob
other_jobs id jobs = keep (λ j. not (str_eq j.id id)) jobs

abbrev pub pending : SensorJob → SensorState
pending job = record {
  id = job.id;
  state = "pending";
  added_at = job.added_at;
  ble_off = job.ble_off;
}

module _ {V : Type 0} where
  unfoldable pub wire_sensor : World → Rt V → SensorReq → String → Rt V × Answer
  unfolding placed hosts_of
  wire_sensor w rt req id =
      let asked = keep (λ h. not (is_empty h.event) && not (is_none_left h.urls)) req.hooks in
      let hooks = placed w.local_ips asked in
      let job : SensorJob = record {
        id = id;
        hosts = hosts_of id req.hosts;
        hooks = hooks;
        password = unwrap_or req.password "";
        ble_off = unwrap_or req.ble_off true;
        added_at = w.now_ms;
      } in
      let cfg = read_config rt.file in
      if is_no_hook asked
      then (rt, refusal 422 "at least one hook (event + urls) is required")
      else if is_no_hook hooks
      then (rt, refusal 409 "this hub has no LAN address to offer the sensor")
      else store w rt (record cfg { sensor_jobs = other_jobs id cfg.sensor_jobs ++ (job ∷ []) })
          (λ s. (
            ring sensor_wake (record s { sensor_state = insert id (pending job) s.sensor_state }),
            ok_json,
          ))

  unfoldable pub drop_sensor : World → Rt V → String → Rt V × Answer
  drop_sensor w rt id =
      let cfg = read_config rt.file in
      store w rt (record cfg { sensor_jobs = other_jobs id cfg.sensor_jobs })
        (λ s. (record s { sensor_state = remove id s.sensor_state }, ok_json))

  unfoldable pub do_sensors : World → Rt V → Caller → Outcome SensorReq → Rt V × Answer
  unfolding wire_sensor drop_sensor
  do_sensors w rt caller body =
      if not (may_administer caller.role)
      then (rt, refusal 403 "wiring a sensor needs a co-owner or the owner")
      else reading rt body (λ req.
        let id = lowercase (trim req.id) in
        let action = lowercase (trim req.action) in
        if is_empty id
        then (rt, refusal 422 "id (the Shelly device id) is required")
        else if str_eq action "wire"
        then wire_sensor w rt req id
        else if str_eq action "cancel" || str_eq action "forget"
        then drop_sensor w rt id
        else (rt, refusal 422 ("unknown action '" <> (action <> "'"))))
