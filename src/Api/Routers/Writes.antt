-- ===== src/Api/Routers/Writes.antt =====
-- Every action on routers stores nothing, or sound routers and nothing else.
use dock_neighbor_hub.Shared.{
  List, ◌≡◌, inl, inr, Option-cases, refl, Bool, true, false, not, ◌&&◌, Option, some, String,
  str_eq, if◌then◌else◌, is_empty, trim, lowercase, length, ◌==◌,
}
use dock_neighbor_hub.LinktapRuntime.{unwrap_or}
use dock_neighbor_hub.Access.{may_administer, may_control}
use dock_neighbor_hub.Store.{ConfigState, RouterConfig, default_router, read_config}
use dock_neighbor_hub.Api.{
  Caller, Answer, World, Rt, Outcome, fine, failed, GpsSupport, unknown, RouterReq, Effect, ring,
  gps_switched,
}
use dock_neighbor_hub.Api.Settings.{trimmed}
use dock_neighbor_hub.Api.Routers.{
  target_of, find_router, put_router, drop_router, edited, add_refusal, signed, named,
  gps_on_refusal, asks_on, given_text, driver_refusal, unsupported_action, is_reading,
  is_per_router,
}
use dock_neighbor_hub.Api.Routers.Lookup.{Distinct}
use dock_neighbor_hub.Api.Routers.Actions.{
  keep_router, prove_router, add_router, remove_router, gps_router, password_router, act_on_router,
  managed_router, routed, do_routers_over,
}
use dock_neighbor_hub.Api.RouterGuards.{
  Outcome-cases, note_support-file, probe_router-file, refresh_router-file, apn_router-file,
  reboot_router-file, read_router-file,
}
use dock_neighbor_hub.Api.Routers.Sound.{
  accepts, Proved, Writes, put-Sound, drop-Sound, gps-Sound, password-Sound, named-target,
  store-Writes,
}

module _ {V : Type 0} where
  if_Writes :
      (w : World) (seen : List RouterConfig) (file : ConfigState) (b : Bool) (x y : Rt V × Answer)
      → Writes w seen file x
      → Writes w seen file y
      → Writes w seen file (if b then x else y)
  if_Writes w seen file true x y h k = h
  if_Writes w seen file false x y h k = k

  told_if-file :
      (b : Bool) (e : Effect V) (rt : Rt V) → (if b then ring e rt else rt).file ≡ rt.file
  told_if-file true e rt = refl
  told_if-file false e rt = refl

  keep_router-Writes :
      (w : World) (seen : List RouterConfig) (rt : Rt V) (r : RouterConfig) (model : Option String)
      (s : GpsSupport)
      → accepts (w.router (target_of r)).probe ≡ true
      → Writes w seen rt.file (keep_router w rt r model s)
  unfolding keep_router
  keep_router-Writes w seen rt r model s h =
      let routers = (read_config rt.file).routers in
      let told = if r.gps_enabled then ring (gps_switched r.host true) rt else rt in
      store-Writes w seen rt.file told (put_router r routers) _ (λ s. (refl, refl))
        (put-Sound w seen routers r h) (told_if-file r.gps_enabled (gps_switched r.host true) rt)

  prove_router-Writes :
      (w : World) (seen : List RouterConfig) (rt : Rt V) (req : RouterReq) (r : RouterConfig)
      → Writes w seen rt.file (prove_router w rt req r)
  unfolding prove_router
  prove_router-Writes w seen rt req r =
      let reads = w.router (target_of r) in
      elim (Outcome-cases reads.probe) [
        | inr (why, e) ↦ rw (e, prove_router) (inl refl)
        | inl (model, e) ↦
            let supported = unwrap_or reads.gps_supported unknown in
            let h : accepts (w.router (target_of (named model r))).probe ≡ true =
              rw (named-target model r, e) refl in
            rw (e, prove_router)
              (elim (Option-cases (gps_on_refusal (asks_on req.gps_enabled) (some supported))) [
                | inl q ↦ rw q (keep_router-Writes w seen rt (named model r) model supported h)
                | inr (why, q) ↦ rw q (inl refl)
              ])
      ]

  add_router-Writes :
      (w : World) (found : ConfigState) (rt : Rt V) (req : RouterReq)
      → Writes w (read_config found).routers rt.file (add_router w found rt req)
  unfolding add_router
  add_router-Writes w found rt req =
      let id = trim req.id in
      let existing = find_router id (read_config found).routers in
      let r = edited req id (unwrap_or existing default_router) in
      if_Writes w (read_config found).routers rt.file (is_empty id) _ _ (inl refl)
        (elim (Option-cases (add_refusal r)) [
          | inl q ↦ rw q (prove_router-Writes w (read_config found).routers rt req (signed r))
          | inr (why, q) ↦ rw q (inl refl)
        ])

  remove_router-Writes :
      (w : World) (seen : List RouterConfig) (rt : Rt V) (req : RouterReq)
      → Writes w seen rt.file (remove_router w rt req)
  unfolding remove_router
  remove_router-Writes w seen rt req =
      let routers = (read_config rt.file).routers in
      let rest = drop_router (trim req.id) routers in
      if_Writes w seen rt.file (length rest == length routers) _ _ (inl refl) (
        store-Writes w seen rt.file _ rest _ (λ s. (refl, refl))
          (drop-Sound w seen routers (trim req.id)) refl)

  gps_router-Writes :
      (w : World) (seen : List RouterConfig) (rt : Rt V) (req : RouterReq) (r : RouterConfig)
      (id : String)
      → Writes w seen rt.file (gps_router w rt req r id)
  unfolding gps_router
  gps_router-Writes w seen rt req r id =
      let reads = w.router (target_of r) in
      let routers = (read_config rt.file).routers in
      let on = unwrap_or req.gps_enabled true in
      let dev = unwrap_or (trimmed req.gps_dev_id) r.gps_dev_id in
      let noted = note_support-file id on reads.gps_supported rt in
      if_Writes w seen rt.file (on && is_empty dev) _ _ (inl refl)
        (elim (Option-cases (gps_on_refusal on reads.gps_supported)) [
          | inr (why, e) ↦ rw (e, gps_router) (inl noted)
          | inl e ↦
              rw (e, gps_router)
                (elim (Option-cases (reads.set_gps on)) [
                  | inr (why, q) ↦ rw (q, gps_router) (inl noted)
                  | inl q ↦
                      rw (q, gps_router)
                        (store-Writes w seen rt.file _ _ _ (λ s. (refl, refl))
                          (gps-Sound w seen routers id on dev) noted)
                ])
        ])

  password_router-Writes :
      (w : World) (seen : List RouterConfig) (rt : Rt V) (req : RouterReq) (r : RouterConfig)
      (id : String)
      → find_router id seen ≡ some r
      → Writes w seen rt.file (password_router w rt req r id)
  unfolding password_router
  password_router-Writes w seen rt req r id found = elim (Option-cases (given_text req.password)) [
    | inl e ↦ rw (e, password_router) (inl refl)
    | inr (pw, e) ↦
        let routers = (read_config rt.file).routers in
        let user = unwrap_or (trimmed req.username) r.username in
        let trial : RouterConfig = record r { username = user; password = pw } in
        rw (e, password_router)
          (elim (Outcome-cases (w.router (target_of trial)).probe) [
            | inr (why, q) ↦ rw (q, password_router) (inl refl)
            | inl (model, q) ↦
                let h : accepts (w.router (target_of trial)).probe ≡ true = rw q refl in
                rw (q, password_router)
                  (store-Writes w seen rt.file rt _ _ (λ s. (refl, refl))
                    (password-Sound w seen routers id user pw r found h) refl)
          ])
  ]

  act_on_router-Writes :
      (w : World) (seen : List RouterConfig) (rt : Rt V) (req : RouterReq) (action : String)
      (r : RouterConfig) (id : String)
      → find_router id seen ≡ some r
      → Writes w seen rt.file (act_on_router w rt req action r id)
  unfolding act_on_router
  act_on_router-Writes w seen rt req action r id found =
      if_Writes w seen rt.file (str_eq action "refresh") _ _ (inl (refresh_router-file w rt r id)) (
        if_Writes w seen rt.file (str_eq action "apn") _ _ (inl (apn_router-file w rt req r id)) (
          if_Writes w seen rt.file (str_eq action "gps") _ _ (gps_router-Writes w seen rt req r id)
            (if_Writes w seen rt.file (str_eq action "password") _ _
              (password_router-Writes w seen rt req r id found)
              (if_Writes w seen rt.file (str_eq action "reboot") _ _
                (inl (reboot_router-file w rt r)) (inl (read_router-file w rt req r))))))

  managed_router-Writes :
      (w : World) (found : ConfigState) (rt : Rt V) (req : RouterReq) (action : String)
      → Writes w (read_config found).routers rt.file (managed_router w found rt req action)
  unfolding managed_router
  managed_router-Writes w found rt req action =
      let id = trim req.id in
      elim (Option-cases (find_router id (read_config found).routers)) [
        | inl e ↦ rw (e, managed_router) (inl refl)
        | inr (r, e) ↦
            rw (e, managed_router)
              (elim (Option-cases (driver_refusal r.vendor)) [
                | inr (why, q) ↦ rw (q, managed_router) (inl refl)
                | inl q ↦
                    rw (q, managed_router)
                      (elim (Option-cases (unsupported_action r.vendor action)) [
                        | inr (why, u) ↦ rw (u, managed_router) (inl refl)
                        | inl u ↦
                            rw (u, managed_router)
                              (act_on_router-Writes w (read_config found).routers rt req action r id
                                e)
                      ])
              ])
      ]

  routed-Writes :
      (w : World) (found : ConfigState) (rt : Rt V) (req : RouterReq) (action : String)
      → Writes w (read_config found).routers rt.file (routed w found rt req action)
  unfolding routed
  routed-Writes w found rt req action =
      if_Writes w (read_config found).routers rt.file (str_eq action "probe") _ _
        (inl (probe_router-file w rt req))
        (if_Writes w (read_config found).routers rt.file (str_eq action "add") _ _
          (add_router-Writes w found rt req)
          (if_Writes w (read_config found).routers rt.file (str_eq action "remove") _ _
            (remove_router-Writes w (read_config found).routers rt req)
            (if_Writes w (read_config found).routers rt.file (is_per_router action) _ _
              (managed_router-Writes w found rt req action) (inl refl))))

  do_routers_over-Writes :
      (w : World) (found : ConfigState) (rt : Rt V) (caller : Caller) (body : Outcome RouterReq)
      → Writes w (read_config found).routers rt.file (do_routers_over w found rt caller body)
  unfolding do_routers_over
  do_routers_over-Writes w found rt caller (failed e) = inl refl
  do_routers_over-Writes w found rt caller (fine req) =
      let action = lowercase (trim req.action) in
      let seen = (read_config found).routers in
      if_Writes w seen rt.file (is_reading action && not (may_control caller.role)) _ _ (inl refl) (
        if_Writes w seen rt.file (not (is_reading action) && not (may_administer caller.role)) _ _
          (inl refl) (routed-Writes w found rt req action))

  -- A call on routers, by whatever action and whatever other calls did since it looked its router
  -- up, keeps the ids of the managed routers different.
  pub do_routers-Distinct :
      (w : World) (found : ConfigState) (rt : Rt V) (caller : Caller) (body : Outcome RouterReq)
      → Distinct (read_config rt.file).routers
      → Distinct (read_config (do_routers_over w found rt caller body).0.file).routers
  unfolding read_config
  do_routers-Distinct w found rt caller body d =
      elim (do_routers_over-Writes w found rt caller body) [
        | inl same ↦ rw same d
        | inr (rs, now, sound) ↦ rw now (sound.0 d)
      ]

  -- Each router that is stored after a call on routers is reached and signs in as one that answered
  -- to its sign-in during the call, or as the one of its id did just before the call wrote, or as
  -- that one with a sign-in to which the router of that id answered as the call had found it.
  pub do_routers-Proved :
      (w : World) (found : ConfigState) (rt : Rt V) (caller : Caller) (body : Outcome RouterReq)
      (id : String) (r : RouterConfig)
      → find_router id (read_config (do_routers_over w found rt caller body).0.file).routers
        ≡ some r
      → Proved w (read_config found).routers (read_config rt.file).routers id r
  unfolding read_config
  do_routers-Proved w found rt caller body id r h =
      elim (do_routers_over-Writes w found rt caller body) [
        | inl same ↦ inr (r, rw same at h, inl refl)
        | inr (rs, now, sound) ↦ sound.1 id r (rw now at h)
      ]
