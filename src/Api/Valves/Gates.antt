-- ===== src/Api/Valves/Gates.antt =====
-- What lets a valve call act, and the limit that a run is opened with.
use dock_neighbor_hub.Shared.{
  ◌≡◌, ◌≢◌, ◌⊎◌, ◌<◌, ◌∙◌, refl, inl, inr, true, false, none, some, String, arith, any, Bool-cases,
  Option-cases, str_eq, if◌then◌else◌, is_empty, ltb, ltb→lt,
}
use dock_neighbor_hub.Float.{Float64}
use dock_neighbor_hub.Linktap.{normalize_dev_id, from_litres}
use dock_neighbor_hub.Cycle.{from_wire, is_washdown}
use dock_neighbor_hub.LinktapRuntime.{Runtime, unwrap_or}
use dock_neighbor_hub.Access.{may_control}
use dock_neighbor_hub.Store.{LinkTapConfig, read_config}
use dock_neighbor_hub.Api.{Caller, World, Rt, fine, ValveReq, reading}
use dock_neighbor_hub.Api.Valves.{
  valve_refusal, is_capped_washdown, sent_cap, kept_cap, run_valve, do_valve,
}

-- The configuration lets the hub drive the valve.
abbrev pub Driven : LinkTapConfig → String → Type 0
Driven lt id =
    (lt.allowed ≡ true)
    × (is_empty lt.host ≡ false)
    × (is_empty lt.gw_id ≡ false)
    × (any (λ d. str_eq (normalize_dev_id d) id) lt.dev_ids ≡ true)

valve_refusal-none : (lt : LinkTapConfig) (id : String) → valve_refusal lt id ≡ none → Driven lt id
unfolding valve_refusal
valve_refusal-none lt id h = ground (arith, h)

module _ {V : Type 0} ⦃f : Float64 V⦄ where
  -- A request that closes, or that opens for a time and, with the mode spelled exactly "washdown",
  -- without a limit in litres.
  abbrev pub Actable : ValveReq V → Type 0
  Actable req =
      (str_eq req.action "close" ≡ true)
      ⊎ ((str_eq req.action "open" ≡ true)
          × (0 < unwrap_or req.duration_secs 0)
          × (is_capped_washdown req ≡ false))

  run_valve-acts :
      (w : World) (rt : Rt V) (id : String) (req : ValveReq V)
      → (run_valve w rt id req).0 ≢ rt
      → Actable req
  unfolding run_valve
  run_valve-acts w rt id req changed = elim (Bool-cases (str_eq req.action "close")) [
    | inl c ↦ inl c
    | inr c ↦ elim (Bool-cases (str_eq req.action "open")) [
      | inr o ↦
          let same : (run_valve w rt id req).0 ≡ rt = rw (c, o, run_valve) refl in
          absurd (changed same)
      | inl o ↦ elim (Bool-cases (ltb 0 (unwrap_or req.duration_secs 0))) [
        | inr s ↦
            let same : (run_valve w rt id req).0 ≡ rt = rw (c, o, s, run_valve) refl in
            absurd (changed same)
        | inl s ↦ elim (Bool-cases (is_capped_washdown req)) [
          | inl k ↦
              let same : (run_valve w rt id req).0 ≡ rt = rw (c, o, s, k, run_valve) refl in
              absurd (changed same)
          | inr k ↦ inr (o, ltb→lt 0 (unwrap_or req.duration_secs 0) s, k)
        ]
      ]
    ]
  ]

  -- A valve call that changes anything or sends a command came from a role that may control, on a
  -- plan that allows it, for a valve of this hub with its gateway known, and asks to close it, or to
  -- open it for a positive time, without a limit in litres where the mode is spelled exactly
  -- "washdown". Another spelling of that mode with a limit is let through.
  pub do_valve-acts :
      (w : World) (rt : Rt V) (caller : Caller) (req : ValveReq V)
      → (do_valve w rt caller (fine req)).0 ≢ rt
      → (may_control caller.role ≡ true)
        × Driven (read_config rt.file).linktap (normalize_dev_id req.dev_id)
        × Actable req
  unfolding do_valve
  do_valve-acts w rt caller req changed = elim (Bool-cases (may_control caller.role)) [
    | inr c ↦
        let same : (do_valve w rt caller (fine req)).0 ≡ rt = rw (c, do_valve) refl in
        absurd (changed same)
    | inl c ↦
        let lt = (read_config rt.file).linktap in
        let id = normalize_dev_id req.dev_id in
        elim (Option-cases (valve_refusal lt id)) [
          | inr (why, e) ↦
              let same : (do_valve w rt caller (fine req)).0 ≡ rt =
                rw (c, do_valve, e, reading) refl in
              absurd (changed same)
          | inl e ↦
              let runs : (do_valve w rt caller (fine req)).0 ≡ (run_valve w rt id req).0 =
                rw (c, do_valve, e, reading) refl in
              (
                c,
                valve_refusal-none lt id e,
                run_valve-acts w rt id req (λ same. changed (runs ∙ same)),
              )
        ]
  ]

  -- Where the code's two readings of the mode agree, the limit sent to the gateway is the limit that
  -- the hub keeps for the run, in the gateway's unit: none for a washdown, and else the caller's.
  pub sent_cap-kept_cap :
      (w : World) (r : Runtime V) (id : String) (req : ValveReq V) (l : V)
      → str_eq (unwrap_or req.mode "normal") "washdown"
        ≡ is_washdown (from_wire (unwrap_or req.mode "normal"))
      → req.volume_cap_l ≡ some l
      → sent_cap w req ≡ (
          if is_washdown (from_wire (unwrap_or req.mode "normal"))
          then none
          else some (from_litres w.vol_unit (kept_cap r id req)))
  unfolding sent_cap kept_cap
  sent_cap-kept_cap w r id req l same h =
      elim (Bool-cases (is_washdown (from_wire (unwrap_or req.mode "normal")))) [
        | inl e ↦ rw (same, e) refl
        | inr e ↦ rw (same, e, h) refl
      ]
