-- ===== src/Api/RouterGuards.antt =====
-- The calls on routers, valves and sensors keep the file, where they are refused or it is damaged.
use dock_neighbor_hub.Shared.{
  ℕ, ◌≡◌, ◌⊎◌, refl, inl, inr, Bool, true, false, not, ◌&&◌, Option, none, some, String, arith,
  Bool-cases, Option-cases, is_empty, str_eq, str_eq_iff, keep, ◌||◌, lowercase, trim, length, ◌==◌,
}
use dock_neighbor_hub.Float.{Float64}
use dock_neighbor_hub.Linktap.{normalize_dev_id}
use dock_neighbor_hub.Access.{may_administer, may_control}
use dock_neighbor_hub.LinktapRuntime.{unwrap_or}
use dock_neighbor_hub.Store.{ConfigState, read_config, RouterConfig, default_router}
use dock_neighbor_hub.Api.{
  Caller, World, Rt, Outcome, fine, failed, RouterReq, SensorReq, ValveReq, GpsSupport, unknown,
}
use dock_neighbor_hub.Api.Sensors.{
  is_no_hook, is_none_left, placed, do_sensors, wire_sensor, drop_sensor,
}
use dock_neighbor_hub.Api.Valves.{do_valve, run_valve, close_valve, open_valve, claimed}
use dock_neighbor_hub.Api.Guards.{
  Guarded, same_Guarded, store-Guarded, store_at-Guarded, reading-Guarded, unless-Guarded,
  if-Guarded,
}
use dock_neighbor_hub.Api.Routers.{
  driver_refusal, unsupported_action, find_router, add_refusal, edited, signed, named,
  gps_on_refusal, asks_on, given_text, is_reading, is_per_router, target_of, drop_router,
}
use dock_neighbor_hub.Api.Settings.{trimmed}
use dock_neighbor_hub.Api.Routers.Actions.{
  probe_router, keep_router, prove_router, add_router, remove_router, refresh_router, apn_router,
  gps_router, password_router, reboot_router, read_router, act_on_router, managed_router, routed,
  do_routers, do_routers_over, note_support,
}

pub Outcome-cases :
    {A : Type 0} (o : Outcome A) → ((a : A) × (o ≡ fine a)) ⊎ ((e : String) × (o ≡ failed e))
Outcome-cases (fine a) = inl (a, refl)
Outcome-cases (failed e) = inr (e, refl)

module _ {V : Type 0} where
  pub probe_router-file :
      (w : World) (rt : Rt V) (req : RouterReq) → (probe_router w rt req).0.file ≡ rt.file
  unfolding probe_router
  probe_router-file w rt req = ground arith

  keep_router-Guarded :
      (w : World) (rt : Rt V) (r : RouterConfig) (model : Option String) (s : GpsSupport)
      → Guarded rt.file (keep_router w rt r model s)
  unfolding keep_router
  keep_router-Guarded w rt r model s = elim (Bool-cases r.gps_enabled) [
    | inl e ↦ rw e (store-Guarded w _ _ _ (λ s. (refl, refl)))
    | inr e ↦ rw e (store-Guarded w _ _ _ (λ s. (refl, refl)))
  ]

  prove_router-Guarded :
      (w : World) (rt : Rt V) (req : RouterReq) (r : RouterConfig)
      → Guarded rt.file (prove_router w rt req r)
  unfolding prove_router
  prove_router-Guarded w rt req r =
      let reads = w.router (target_of r) in
      elim (Outcome-cases reads.probe) [
        | inr (why, e) ↦ rw (e, prove_router) (λ k. refl, λ k. refl)
        | inl (model, e) ↦
            let supported = unwrap_or reads.gps_supported unknown in
            rw (e, prove_router)
              (elim (Option-cases (gps_on_refusal (asks_on req.gps_enabled) (some supported))) [
                | inl q ↦ rw q (keep_router-Guarded w rt (named model r) model supported)
                | inr (why, q) ↦ rw q (λ k. refl, λ k. refl)
              ])
      ]

  add_router-Guarded :
      (w : World) (found : ConfigState) (rt : Rt V) (req : RouterReq)
      → Guarded rt.file (add_router w found rt req)
  unfolding add_router
  add_router-Guarded w found rt req =
      let id = trim req.id in
      let existing = find_router id (read_config found).routers in
      let r = edited req id (unwrap_or existing default_router) in
      unless-Guarded rt.file (is_empty id) _ _ refl (elim (Option-cases (add_refusal r)) [
        | inl q ↦ rw q (prove_router-Guarded w rt req (signed r))
        | inr (why, q) ↦ rw q (λ k. refl, λ k. refl)
      ])

  remove_router-Guarded :
      (w : World) (rt : Rt V) (req : RouterReq) → Guarded rt.file (remove_router w rt req)
  unfolding remove_router
  remove_router-Guarded w rt req =
      let routers = (read_config rt.file).routers in
      unless-Guarded rt.file (length (drop_router (trim req.id) routers) == length routers) _ _ refl
        (store-Guarded w rt _ _ (λ s. (refl, refl)))

  pub refresh_router-file :
      (w : World) (rt : Rt V) (r : RouterConfig) (id : String)
      → (refresh_router w rt r id).0.file ≡ rt.file
  unfolding refresh_router
  refresh_router-file w rt r id = ground arith

  pub apn_router-file :
      (w : World) (rt : Rt V) (req : RouterReq) (r : RouterConfig) (id : String)
      → (apn_router w rt req r id).0.file ≡ rt.file
  unfolding apn_router
  apn_router-file w rt req r id = ground arith

  pub note_support-file :
      (id : String) (on : Bool) (supported : Option GpsSupport) (rt : Rt V)
      → (note_support id on supported rt).file ≡ rt.file
  note_support-file id false supported rt = refl
  note_support-file id true none rt = refl
  note_support-file id true (some s) rt = refl

  gps_router-Guarded :
      (w : World) (rt : Rt V) (req : RouterReq) (r : RouterConfig) (id : String)
      → Guarded rt.file (gps_router w rt req r id)
  unfolding gps_router
  gps_router-Guarded w rt req r id =
      let reads = w.router (target_of r) in
      let on = unwrap_or req.gps_enabled true in
      let dev = unwrap_or (trimmed req.gps_dev_id) r.gps_dev_id in
      let noted = note_support-file id on reads.gps_supported rt in
      unless-Guarded rt.file (on && is_empty dev) _ _ refl
        (elim (Option-cases (gps_on_refusal on reads.gps_supported)) [
          | inr (why, e) ↦ rw (e, gps_router) (λ k. noted, λ k. noted)
          | inl e ↦
              rw (e, gps_router)
                (elim (Option-cases (reads.set_gps on)) [
                  | inr (why, q) ↦ rw (q, gps_router) (λ k. noted, λ k. noted)
                  | inl q ↦
                      rw (q, gps_router)
                        (store_at-Guarded rt.file w _ _ _ noted (λ s. (refl, refl)))
                ])
        ])

  password_router-Guarded :
      (w : World) (rt : Rt V) (req : RouterReq) (r : RouterConfig) (id : String)
      → Guarded rt.file (password_router w rt req r id)
  unfolding password_router
  password_router-Guarded w rt req r id = elim (Option-cases (given_text req.password)) [
    | inl e ↦ rw (e, password_router) (λ k. refl, λ k. refl)
    | inr (pw, e) ↦
        let user = unwrap_or (trimmed req.username) r.username in
        let trial : RouterConfig = record r { username = user; password = pw } in
        rw (e, password_router)
          (elim (Outcome-cases (w.router (target_of trial)).probe) [
            | inr (why, q) ↦ rw q (λ k. refl, λ k. refl)
            | inl (model, q) ↦ rw q (store-Guarded w rt _ _ (λ s. (refl, refl)))
          ])
  ]

  pub reboot_router-file :
      (w : World) (rt : Rt V) (r : RouterConfig) → (reboot_router w rt r).0.file ≡ rt.file
  unfolding reboot_router
  reboot_router-file w rt r = ground arith

  pub read_router-file :
      (w : World) (rt : Rt V) (req : RouterReq) (r : RouterConfig)
      → (read_router w rt req r).0.file ≡ rt.file
  unfolding read_router
  read_router-file w rt req r = ground arith

  act_on_router-Guarded :
      (w : World) (rt : Rt V) (req : RouterReq) (action : String) (r : RouterConfig) (id : String)
      → Guarded rt.file (act_on_router w rt req action r id)
  unfolding act_on_router
  act_on_router-Guarded w rt req action r id =
      unless-Guarded rt.file (str_eq action "refresh") _ _ (refresh_router-file w rt r id) (
        unless-Guarded rt.file (str_eq action "apn") _ _ (apn_router-file w rt req r id) (
          if-Guarded rt.file (str_eq action "gps") _ _ (gps_router-Guarded w rt req r id) (
            if-Guarded rt.file (str_eq action "password") _ _
              (password_router-Guarded w rt req r id)
              (unless-Guarded rt.file (str_eq action "reboot") _ _ (reboot_router-file w rt r)
                (same_Guarded rt.file (read_router w rt req r) (read_router-file w rt req r))))))

  managed_router-Guarded :
      (w : World) (found : ConfigState) (rt : Rt V) (req : RouterReq) (action : String)
      → Guarded rt.file (managed_router w found rt req action)
  unfolding managed_router
  managed_router-Guarded w found rt req action =
      let id = trim req.id in
      elim (Option-cases (find_router id (read_config found).routers)) [
        | inl e ↦ rw (e, managed_router) (λ k. refl, λ k. refl)
        | inr (r, e) ↦
            rw (e, managed_router)
              (elim (Option-cases (driver_refusal r.vendor)) [
                | inr (why, q) ↦ rw (q, managed_router) (λ k. refl, λ k. refl)
                | inl q ↦
                    rw (q, managed_router)
                      (elim (Option-cases (unsupported_action r.vendor action)) [
                        | inr (why, u) ↦ rw (u, managed_router) (λ k. refl, λ k. refl)
                        | inl u ↦
                            rw (u, managed_router) (act_on_router-Guarded w rt req action r id)
                      ])
              ])
      ]

  routed-Guarded :
      (w : World) (found : ConfigState) (rt : Rt V) (req : RouterReq) (action : String)
      → Guarded rt.file (routed w found rt req action)
  unfolding routed
  routed-Guarded w found rt req action =
      unless-Guarded rt.file (str_eq action "probe") _ _ (probe_router-file w rt req) (
        if-Guarded rt.file (str_eq action "add") _ _ (add_router-Guarded w found rt req) (
          if-Guarded rt.file (str_eq action "remove") _ _ (remove_router-Guarded w rt req) (
            if-Guarded rt.file (is_per_router action) _ _
              (managed_router-Guarded w found rt req action) (λ k. refl, λ k. refl))))

  pub do_routers-Guarded :
      (w : World) (rt : Rt V) (caller : Caller) (body : Outcome RouterReq)
      → Guarded rt.file (do_routers w rt caller body)
  unfolding do_routers do_routers_over
  do_routers-Guarded w rt caller body = reading-Guarded rt body _ (λ req.
      let action = lowercase (trim req.action) in
      unless-Guarded rt.file (is_reading action && not (may_control caller.role)) _ _ refl (
        unless-Guarded rt.file (not (is_reading action) && not (may_administer caller.role)) _ _
          refl (routed-Guarded w rt.file rt req action)))

  managed_router-file :
      (w : World) (found : ConfigState) (rt : Rt V) (req : RouterReq) (action : String)
      → ((r : RouterConfig) (id : String) → (act_on_router w rt req action r id).0.file ≡ rt.file)
      → (managed_router w found rt req action).0.file ≡ rt.file
  unfolding managed_router
  managed_router-file w found rt req action h =
      let id = trim req.id in
      elim (Option-cases (find_router id (read_config found).routers)) [
        | inl e ↦ rw (e, managed_router) refl
        | inr (r, e) ↦
            rw (e, managed_router)
              (elim (Option-cases (driver_refusal r.vendor)) [
                | inr (why, q) ↦ rw (q, managed_router) refl
                | inl q ↦
                    rw (q, managed_router)
                      (elim (Option-cases (unsupported_action r.vendor action)) [
                        | inr (why, u) ↦ rw (u, managed_router) refl
                        | inl u ↦ rw (u, managed_router) (h r id)
                      ])
              ])
      ]

  routed_refresh :
      (w : World) (found : ConfigState) (rt : Rt V) (req : RouterReq)
      → (routed w found rt req "refresh").0.file ≡ rt.file
  unfolding routed act_on_router
  routed_refresh w found rt req =
      managed_router-file w found rt req "refresh" (λ r id. refresh_router-file w rt r id)

  routed_read :
      (w : World) (found : ConfigState) (rt : Rt V) (req : RouterReq)
      → (routed w found rt req "read").0.file ≡ rt.file
  unfolding routed act_on_router
  routed_read w found rt req =
      managed_router-file w found rt req "read" (λ r id. read_router-file w rt req r)

  routed_reading :
      (w : World) (found : ConfigState) (rt : Rt V) (req : RouterReq) (action : String)
      → is_reading action ≡ true
      → (routed w found rt req action).0.file ≡ rt.file
  routed_reading w found rt req action h = elim (Bool-cases (str_eq action "refresh")) [
    | inl e ↦ rw ((str_eq_iff action "refresh").0 e) (routed_refresh w found rt req)
    | inr e ↦
        let k : str_eq action "read" ≡ true = ground (arith, h, e) in
        rw ((str_eq_iff action "read").0 k) (routed_read w found rt req)
  ]

  -- Who may only read routers changes no file.
  pub do_routers_unprivileged :
      (w : World) (rt : Rt V) (caller : Caller) (body : Outcome RouterReq)
      → may_administer caller.role ≡ false
      → (do_routers w rt caller body).0.file ≡ rt.file
  unfolding do_routers do_routers_over
  do_routers_unprivileged w rt caller (failed e) h = refl
  do_routers_unprivileged w rt caller (fine req) h =
      let action = lowercase (trim req.action) in
      elim (Bool-cases (is_reading action)) [
        | inr e ↦ rw (e, h) refl
        | inl e ↦ elim (Bool-cases (may_control caller.role)) [
          | inr c ↦ rw (e, c) refl
          | inl c ↦ rw (e, c) (routed_reading w rt.file rt req action e)
        ]
      ]

  wire_sensor-Guarded :
      (w : World) (rt : Rt V) (req : SensorReq) (id : String)
      → Guarded rt.file (wire_sensor w rt req id)
  unfolding wire_sensor
  wire_sensor-Guarded w rt req id =
      let asked = keep (λ h. not (is_empty h.event) && not (is_none_left h.urls)) req.hooks in
      unless-Guarded rt.file (is_no_hook asked) _ _ refl (
        unless-Guarded rt.file (is_no_hook (placed w.local_ips asked)) _ _ refl
          (store-Guarded w rt _ _ (λ s. (refl, refl))))

  drop_sensor-Guarded :
      (w : World) (rt : Rt V) (id : String) → Guarded rt.file (drop_sensor w rt id)
  unfolding drop_sensor
  drop_sensor-Guarded w rt id = store-Guarded w rt _ _ (λ s. (refl, refl))

  pub do_sensors-Guarded :
      (w : World) (rt : Rt V) (caller : Caller) (body : Outcome SensorReq)
      → Guarded rt.file (do_sensors w rt caller body)
  unfolding do_sensors
  do_sensors-Guarded w rt caller body =
      unless-Guarded rt.file (not (may_administer caller.role)) _ _ refl (
        reading-Guarded rt body _ (λ req.
          let id = lowercase (trim req.id) in
          let action = lowercase (trim req.action) in
          unless-Guarded rt.file (is_empty id) _ _ refl (
            if-Guarded rt.file (str_eq action "wire") _ _ (wire_sensor-Guarded w rt req id) (
              if-Guarded rt.file (str_eq action "cancel" || str_eq action "forget") _ _
                (drop_sensor-Guarded w rt id) (λ k. refl, λ k. refl)))))

module _ {V : Type 0} ⦃f : Float64 V⦄ where
  close_valve-file :
      (w : World) (rt : Rt V) (dev_id : String) → (close_valve w rt dev_id).0.file ≡ rt.file
  unfolding close_valve claimed
  close_valve-file w rt dev_id = ground arith

  open_valve-file :
      (w : World) (rt : Rt V) (dev_id : String) (req : ValveReq V) (secs : ℕ)
      → (open_valve w rt dev_id req secs).0.file ≡ rt.file
  unfolding open_valve
  open_valve-file w rt dev_id req secs = ground arith

  run_valve-file :
      (w : World) (rt : Rt V) (dev_id : String) (req : ValveReq V)
      → (run_valve w rt dev_id req).0.file ≡ rt.file
  unfolding run_valve
  run_valve-file w rt dev_id req =
      let secs = unwrap_or req.duration_secs 0 in
      ground (arith, close_valve-file w rt dev_id, open_valve-file w rt dev_id req secs)

  pub do_valve-file :
      (w : World) (rt : Rt V) (caller : Caller) (body : Outcome (ValveReq V))
      → (do_valve w rt caller body).0.file ≡ rt.file
  unfolding do_valve
  do_valve-file w rt caller (failed e) = ground arith
  do_valve-file w rt caller (fine req) =
      let dev_id = normalize_dev_id req.dev_id in ground (arith, run_valve-file w rt dev_id req)
