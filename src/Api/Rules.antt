-- ===== src/Api/Rules.antt =====
-- Who changes the hub's file, through either door.
use dock_neighbor_hub.Shared.{
  ℕ, ◌≡◌, ◌≢◌, ◌⊎◌, refl, inl, inr, Bool, true, false, Option, none, some, List, String, arith,
  Bool-cases, is_some,
}
use dock_neighbor_hub.Float.{Float64}
use dock_neighbor_hub.LinktapRuntime.{Print}
use dock_neighbor_hub.Access.{MemberKey, authorize, may_administer}
use dock_neighbor_hub.Api.{Caller, Answer, World, Rt, Json}
use dock_neighbor_hub.Api.Settings.{
  do_config, do_token, do_clear, do_update, do_logs, do_gps, do_gps_discover, do_refresh, do_watch,
}
use dock_neighbor_hub.Api.Calls.{
  Endpoint, status, logs, config, token, clear, update, valve, gps, gps_discover, routers_list,
  routers, sensors_list, sensors, refresh, watch, nowhere, endpoint_of, serve_endpoint, dispatch,
  let_in, lan_call,
}
use dock_neighbor_hub.Api.Guards.{
  is_damaged, do_config-Guarded, do_token-Guarded, do_gps-Guarded, do_clear_refused,
}
use dock_neighbor_hub.Api.RouterGuards.{
  do_routers-Guarded, do_routers_unprivileged, do_sensors-Guarded, do_valve-file,
}
use dock_neighbor_hub.Api.Sensors.{do_sensors}

abbrev pub is_clear : Endpoint → Bool
is_clear clear = true
is_clear status = false
is_clear logs = false
is_clear config = false
is_clear token = false
is_clear update = false
is_clear valve = false
is_clear gps = false
is_clear gps_discover = false
is_clear routers_list = false
is_clear routers = false
is_clear sensors_list = false
is_clear sensors = false
is_clear refresh = false
is_clear watch = false
is_clear nowhere = false

-- A call leaves the file, if it is refused, the file is damaged and the call is no `clear`, or the
-- caller may not administer the hub.
abbrev pub Careful : {V : Type 0} → Rt V → Caller → Endpoint → Rt V × Answer → Type 0
Careful rt caller e r =
    (is_some r.1.error ≡ true → r.0.file ≡ rt.file)
    × (is_damaged rt.file ≡ true → is_clear e ≡ false → r.0.file ≡ rt.file)
    × (may_administer caller.role ≡ false → r.0.file ≡ rt.file)

is_clear_eq : (e : Endpoint) → is_clear e ≡ true → e ≡ clear
is_clear_eq clear h = refl
is_clear_eq status h = cc
is_clear_eq logs h = cc
is_clear_eq config h = cc
is_clear_eq token h = cc
is_clear_eq update h = cc
is_clear_eq valve h = cc
is_clear_eq gps h = cc
is_clear_eq gps_discover h = cc
is_clear_eq routers_list h = cc
is_clear_eq routers h = cc
is_clear_eq sensors_list h = cc
is_clear_eq sensors h = cc
is_clear_eq refresh h = cc
is_clear_eq watch h = cc
is_clear_eq nowhere h = cc

module _ {V : Type 0} ⦃f : Float64 V⦄ (print : Print V) (json : Json V) where
  do_update-file :
      (w : World) (rt : Rt V) (caller : Caller) → (do_update w rt caller).0.file ≡ rt.file
  unfolding do_update
  do_update-file w rt caller = ground arith

  do_logs-file : (rt : Rt V) (caller : Caller) → (do_logs rt caller).0.file ≡ rt.file
  unfolding do_logs
  do_logs-file rt caller = ground arith

  do_gps_discover-file :
      (rt : Rt V) (caller : Caller) → (do_gps_discover rt caller).0.file ≡ rt.file
  unfolding do_gps_discover
  do_gps_discover-file rt caller = ground arith

  do_refresh-file :
      (w : World) (rt : Rt V) (caller : Caller) → (do_refresh w rt caller).0.file ≡ rt.file
  unfolding do_refresh
  do_refresh-file w rt caller = ground arith

  do_watch-file :
      (w : World) (rt : Rt V) (caller : Caller) (body : List ℕ)
      → (do_watch print w rt caller body json.watch_req).0.file ≡ rt.file
  unfolding do_watch
  do_watch-file w rt caller body = ground arith

  serve_endpoint-Careful :
      (w : World) (rt : Rt V) (caller : Caller) (body : List ℕ) (e : Endpoint)
      → Careful rt caller e (serve_endpoint print json w rt caller body e)
  unfolding serve_endpoint do_config do_token do_gps do_sensors do_clear
  serve_endpoint-Careful w rt caller body status = (λ k. refl, λ k q. refl, λ k. refl)
  serve_endpoint-Careful w rt caller body logs =
      let h = do_logs-file rt caller in (λ k. h, λ k q. h, λ k. h)
  serve_endpoint-Careful w rt caller body config =
      let g = do_config-Guarded w rt caller (json.config_req body) in
      (g.0, λ k q. g.1 k, λ h. rw h refl)
  serve_endpoint-Careful w rt caller body token =
      let g = do_token-Guarded w rt caller (json.token_req body) in
      (g.0, λ k q. g.1 k, λ h. rw h refl)
  serve_endpoint-Careful w rt caller body clear =
      (do_clear_refused w rt caller, λ k q. cc, λ h. rw h refl)
  serve_endpoint-Careful w rt caller body update =
      let h = do_update-file w rt caller in (λ k. h, λ k q. h, λ k. h)
  serve_endpoint-Careful w rt caller body valve =
      let h = do_valve-file w rt caller (json.valve_req body) in (λ k. h, λ k q. h, λ k. h)
  serve_endpoint-Careful w rt caller body gps =
      let g = do_gps-Guarded w rt caller (json.gps_req body) in (g.0, λ k q. g.1 k, λ h. rw h refl)
  serve_endpoint-Careful w rt caller body gps_discover =
      let h = do_gps_discover-file rt caller in (λ k. h, λ k q. h, λ k. h)
  serve_endpoint-Careful w rt caller body routers_list = (λ k. refl, λ k q. refl, λ k. refl)
  serve_endpoint-Careful w rt caller body routers =
      let g = do_routers-Guarded w rt caller (json.router_req body) in
      (g.0, λ k q. g.1 k, do_routers_unprivileged w rt caller (json.router_req body))
  serve_endpoint-Careful w rt caller body sensors_list = (λ k. refl, λ k q. refl, λ k. refl)
  serve_endpoint-Careful w rt caller body sensors =
      let g = do_sensors-Guarded w rt caller (json.sensor_req body) in
      (g.0, λ k q. g.1 k, λ h. rw h refl)
  serve_endpoint-Careful w rt caller body refresh =
      let h = do_refresh-file w rt caller in (λ k. h, λ k q. h, λ k. h)
  serve_endpoint-Careful w rt caller body watch =
      let h = do_watch-file w rt caller body in (λ k. h, λ k q. h, λ k. h)
  serve_endpoint-Careful w rt caller body nowhere = (λ k. refl, λ k q. refl, λ k. refl)

  dispatch-Careful :
      (w : World) (rt : Rt V) (caller : Caller) (method path : String) (body : List ℕ)
      → Careful rt caller
          (endpoint_of method path)
          (dispatch print json w rt caller method path body)
  unfolding dispatch
  dispatch-Careful w rt caller method path body =
      serve_endpoint-Careful w rt caller body (endpoint_of method path)

  let_in_changes :
      (w : World) (rt : Rt V) (presented : List ℕ) (method path : String) (body : List ℕ)
      (o : Option MemberKey)
      → (let r = let_in print json w rt presented method path body o in
          r.0.file ≢ rt.file
          → (k : MemberKey) × (o ≡ some k)
            × (may_administer k.role ≡ true)
            × (is_some r.1.error ≡ false)
            × ((is_damaged rt.file ≡ false) ⊎ (endpoint_of method path ≡ clear)))
  unfolding let_in
  let_in_changes w rt presented method path body none changed =
      let same : (let_in print json w rt presented method path body none).0.file ≡ rt.file =
        ground arith in
      absurd (changed same)
  let_in_changes w rt presented method path body (some k) changed =
      let caller : Caller = record { uid = k.uid; role = k.role } in
      let c = dispatch-Careful w rt caller method path body in
      (
        k,
        refl,
        elim (Bool-cases (may_administer k.role)) [ inl h ↦ h | inr h ↦ absurd (changed (c.2 h)) ],
        elim (Bool-cases (is_some (dispatch print json w rt caller method path body).1.error)) [
          | inr h ↦ h
          | inl h ↦ absurd (changed (c.0 h))
        ],
        elim (Bool-cases (is_damaged rt.file)) [
          | inr d ↦ inl d
          | inl d ↦ elim (Bool-cases (is_clear (endpoint_of method path))) [
            | inl h ↦ inr (is_clear_eq (endpoint_of method path) h)
            | inr h ↦ absurd (changed (c.1 d h))
          ]
        ],
      )

  -- A call over the LAN that changes the hub's file was made with the key of an owner or co-owner and
  -- answered as done; and either the file could be read, or the call is the one that clears it.
  pub lan_call_changes :
      (w : World) (rt : Rt V) (presented : List ℕ) (method path : String) (body : List ℕ)
      → (lan_call print json w rt presented method path body).0.file ≢ rt.file
      → (k : MemberKey) × (authorize rt.keys presented ≡ some k)
        × (may_administer k.role ≡ true)
        × (is_some (lan_call print json w rt presented method path body).1.error ≡ false)
        × ((is_damaged rt.file ≡ false) ⊎ (endpoint_of method path ≡ clear))
  unfolding lan_call
  lan_call_changes w rt presented method path body =
      let_in_changes w rt presented method path body (authorize rt.keys presented)
