-- ===== src/Api/Routers/Actions.antt =====
-- daemon/src/hub_server.rs: `do_routers`. A driver's requests are the world's answers; what it was
-- asked to change is an effect. A call finds its router without the store's lock, awaits the device,
-- and reads the store again under the lock to write: `found` is the file at the first read, `rt` the
-- state at the second, whatever other calls did in between.
use dock_neighbor_hub.Shared.{
  ℕ, Bool, true, false, not, ◌&&◌, ◌||◌, Option, none, some, String, ◌<>◌, is_empty, if◌then◌else◌,
  trim, str_eq, lowercase, lookup, insert, remove, length, ◌==◌, has_prefix, codes,
}
use dock_neighbor_hub.LinktapRuntime.{unwrap_or}
use dock_neighbor_hub.Access.{may_administer, may_control}
use dock_neighbor_hub.Store.{ConfigState, RouterConfig, default_router, read_config}
use dock_neighbor_hub.Api.{
  Caller, Answer, ok_json, refusal, Outcome, fine, failed, World, Rt, router_wake, gps_switched,
  apn_set, rebooted, RouterReq, GpsSupport, unknown, ApnConfig, ring, store, reading,
}
use dock_neighbor_hub.Api.Settings.{trimmed, lowered}
use dock_neighbor_hub.Api.Routers.{
  driver_refusal, unsupported_action, target_of, find_router, put_router, edit_router, drop_router,
  edited, add_refusal, signed, named, gps_record_required, gps_on_refusal, asks_on, touch,
  given_text, is_per_router, is_reading,
}

-- A path reader's refusal is the request's fault or the router's.
abbrev read_status : String → ℕ
read_status why =
    if has_prefix (codes why) (codes "read takes")
      || (has_prefix (codes why) (codes "that is not")
          || has_prefix (codes why) (codes "a path is"))
    then 422
    else 502

module _ {V : Type 0} where
  unfoldable pub probe_router : World → Rt V → RouterReq → Rt V × Answer
  probe_router w rt req =
      let vendor = unwrap_or (lowered req.vendor) "cradlepoint" in
      let host = unwrap_or (trimmed req.host) "" in
      let reads = w.router (record {
        vendor = vendor;
        host = host;
        port = unwrap_or req.port 0;
        username = unwrap_or req.username "";
        password = unwrap_or req.password "";
      }) in
      elim (driver_refusal vendor) [
        | some why ↦ (rt, refusal 422 why)
        | none ↦ if is_empty host then (rt, refusal 422 "host is required") else elim reads.probe [
          | fine model ↦ (rt, ok_json)
          | failed why ↦ (rt, refusal 502 why)
        ]
      ]

  -- Storing the router whose sign-in was proved.
  unfoldable pub keep_router :
      World → Rt V → RouterConfig → Option String → GpsSupport → Rt V × Answer
  unfolding put_router
  keep_router w rt r model supported =
      let rt' = if r.gps_enabled then ring (gps_switched r.host true) rt else rt in
      let cfg = read_config rt.file in
      store w rt' (record cfg { routers = put_router r cfg.routers })
        (λ s. (
          ring router_wake (record s {
            router_state =
                touch r.id
                  (λ seed. record seed { model = some model; gps_supported = some supported })
                  s.router_state;
          }),
          ok_json,
        ))

  unfoldable pub prove_router : World → Rt V → RouterReq → RouterConfig → Rt V × Answer
  unfolding keep_router
  prove_router w rt req r =
      let reads = w.router (target_of r) in
      elim reads.probe [
        | failed why ↦ (rt, refusal 502 why)
        | fine model ↦
            let supported = unwrap_or reads.gps_supported unknown in
            elim (gps_on_refusal (asks_on req.gps_enabled) (some supported)) [
              | some why ↦ (rt, refusal 422 why)
              | none ↦ keep_router w rt (named model r) model supported
            ]
      ]

  unfoldable pub add_router : World → ConfigState → Rt V → RouterReq → Rt V × Answer
  unfolding prove_router find_router edited add_refusal
  add_router w found rt req =
      let id = trim req.id in
      let existing = find_router id (read_config found).routers in
      let r = edited req id (unwrap_or existing default_router) in
      if is_empty id then (rt, refusal 422 "id is required") else elim (add_refusal r) [
        | some why ↦ (rt, refusal 422 why)
        | none ↦ prove_router w rt req (signed r)
      ]

  unfoldable pub remove_router : World → Rt V → RouterReq → Rt V × Answer
  unfolding drop_router
  remove_router w rt req =
      let id = trim req.id in
      let cfg = read_config rt.file in
      let rest = drop_router id cfg.routers in
      if length rest == length cfg.routers
      then (rt, refusal 404 "no managed router with that id")
      else store w rt (record cfg { routers = rest })
          (λ s. (record s { router_state = remove id s.router_state }, ok_json))

  unfoldable pub refresh_router : World → Rt V → RouterConfig → String → Rt V × Answer
  refresh_router w rt r id =
      let snap = (w.router (target_of r)).poll (lookup id rt.router_state) in
      let rt' = record rt { router_state = insert id snap rt.router_state } in
      (elim snap.error [ none ↦ ring router_wake rt' | some why ↦ rt' ], ok_json)

  abbrev pub apn_answer : Rt V → String → Outcome ApnConfig → Rt V × Answer
  apn_answer rt id (fine apn) = (
    record rt { router_state = touch id (λ s. record s { apn = some apn }) rt.router_state },
    ok_json,
  )
  apn_answer rt id (failed why) = (rt, refusal 502 why)

  unfoldable pub apn_router : World → Rt V → RouterReq → RouterConfig → String → Rt V × Answer
  apn_router w rt req r id =
      let reads = w.router (target_of r) in
      elim (given_text (trimmed req.mode)) [
        | none ↦ apn_answer rt id reads.read_apn
        | some m ↦
            let mode = lowercase m in
            let apn : ApnConfig = record { mode = mode; apn = req.apn } in
            if not (str_eq mode "auto") && not (str_eq mode "manual")
            then (rt, refusal 422 "mode must be auto or manual")
            else apn_answer (ring (apn_set r.host apn) rt) id (reads.set_apn apn)
      ]

  -- What the router says of its GPS is noted before it may refuse.
  abbrev pub note_support : String → Bool → Option GpsSupport → Rt V → Rt V
  note_support id false supported rt = rt
  note_support id true none rt = rt
  note_support id true (some s) rt = record rt {
    router_state = touch id (λ seed. record seed { gps_supported = some s }) rt.router_state;
  }

  unfoldable pub gps_router : World → Rt V → RouterReq → RouterConfig → String → Rt V × Answer
  unfolding edit_router
  gps_router w rt req r id =
      let reads = w.router (target_of r) in
      let on = unwrap_or req.gps_enabled true in
      let dev = unwrap_or (trimmed req.gps_dev_id) r.gps_dev_id in
      let noted = note_support id on reads.gps_supported rt in
      let cfg = read_config rt.file in
      if on && is_empty dev
      then (rt, refusal 422 gps_record_required)
      else elim (gps_on_refusal on reads.gps_supported) [
        | some why ↦ (noted, refusal 422 why)
        | none ↦
            let told = ring (gps_switched r.host on) noted in
            elim (reads.set_gps on) [
              | some why ↦ (told, refusal 502 why)
              | none ↦
                  store w told
                    (record cfg {
                      routers =
                          edit_router id (λ x. record x { gps_enabled = on; gps_dev_id = dev })
                            cfg.routers;
                    })
                    (λ s. (ring router_wake s, ok_json))
            ]
      ]

  unfoldable pub password_router : World → Rt V → RouterReq → RouterConfig → String → Rt V × Answer
  unfolding edit_router
  password_router w rt req r id =
      let user = unwrap_or (trimmed req.username) r.username in
      let cfg = read_config rt.file in
      elim (given_text req.password) [
        | none ↦ (rt, refusal 422 "password is required")
        | some pw ↦
            elim (w.router (target_of (record r { username = user; password = pw }))).probe [
              | failed why ↦ (rt, refusal 502 why)
              | fine model ↦
                  store w rt
                    (record cfg {
                      routers =
                          edit_router id (λ x. record x { username = user; password = pw })
                            cfg.routers;
                    })
                    (λ s. (ring router_wake s, ok_json))
            ]
      ]

  unfoldable pub reboot_router : World → Rt V → RouterConfig → Rt V × Answer
  reboot_router w rt r =
      let rt' = ring (rebooted r.host) rt in
      elim (w.router (target_of r)).reboot [
        | none ↦ (rt', ok_json)
        | some why ↦ (rt', refusal 502 why)
      ]

  unfoldable pub read_router : World → Rt V → RouterReq → RouterConfig → Rt V × Answer
  read_router w rt req r = elim ((w.router (target_of r)).read_path (unwrap_or req.path "")) [
    | none ↦ (rt, ok_json)
    | some why ↦ (rt, refusal (read_status why) why)
  ]

  -- The inner `match`; its callers pass one of the six actions.
  unfoldable pub act_on_router :
      World → Rt V → RouterReq → String → RouterConfig → String → Rt V × Answer
  unfolding refresh_router apn_router gps_router password_router reboot_router read_router
  act_on_router w rt req action r id =
      if str_eq action "refresh"
      then refresh_router w rt r id
      else if str_eq action "apn"
      then apn_router w rt req r id
      else if str_eq action "gps"
      then gps_router w rt req r id
      else if str_eq action "password"
      then password_router w rt req r id
      else if str_eq action "reboot"
      then reboot_router w rt r
      else read_router w rt req r

  -- The actions that start by finding the router.
  unfoldable pub managed_router : World → ConfigState → Rt V → RouterReq → String → Rt V × Answer
  unfolding act_on_router find_router
  managed_router w found rt req action =
      let id = trim req.id in
      elim (find_router id (read_config found).routers) [
        | none ↦ (rt, refusal 404 "no managed router with that id")
        | some r ↦ elim (driver_refusal r.vendor) [
          | some why ↦ (rt, refusal 422 why)
          | none ↦ elim (unsupported_action r.vendor action) [
            | some why ↦ (rt, refusal 422 why)
            | none ↦ act_on_router w rt req action r id
          ]
        ]
      ]

  unfoldable pub routed : World → ConfigState → Rt V → RouterReq → String → Rt V × Answer
  unfolding probe_router add_router remove_router managed_router
  routed w found rt req action =
      if str_eq action "probe"
      then probe_router w rt req
      else if str_eq action "add"
      then add_router w found rt req
      else if str_eq action "remove"
      then remove_router w rt req
      else if is_per_router action
      then managed_router w found rt req action
      else (rt, refusal 422 ("unknown action '" <> (action <> "'")))

  -- A call that looked its router up in `found` and meets the state `rt` once the device has answered.
  unfoldable pub do_routers_over :
      World → ConfigState → Rt V → Caller → Outcome RouterReq → Rt V × Answer
  unfolding routed
  do_routers_over w found rt caller body = reading rt body (λ req.
      let action = lowercase (trim req.action) in
      if is_reading action && not (may_control caller.role)
      then (rt, refusal 403 "reading a router needs control access or above")
      else if not (is_reading action) && not (may_administer caller.role)
      then (rt, refusal 403 "managing a router needs a co-owner or the owner")
      else routed w found rt req action)

  -- A call that no other comes between.
  unfoldable pub do_routers : World → Rt V → Caller → Outcome RouterReq → Rt V × Answer
  unfolding do_routers_over
  do_routers w rt caller body = do_routers_over w rt.file rt caller body
