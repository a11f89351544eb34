-- ===== src/Api/Floods/Answered.antt =====
-- After a flood report every valve that the hub knows has a flood close in flight, newly sent or
-- already being retried.
use dock_neighbor_hub.Shared.{
  ℕ, ◌≡◌, ap, inl, inr, Bool, true, false, not, ◌&&◌, ◌||◌, Option, none, some, List, [], ◌∷◌,
  String, arith, any, Bool-cases, str_eq, str_eq_iff, lookup, lookup-insert,
}
use dock_neighbor_hub.Linktap.{normalize_dev_id}
use dock_neighbor_hub.CloseWatch.{CloseWatch, flood, is_flood, overrides, opened}
use dock_neighbor_hub.CloseDriver.{Closes, claim_close}
use dock_neighbor_hub.Api.{
  World, Rt, Effect, wake, gps_wake, router_wake, linktap_wake, sensor_wake, key_wake, start_update,
  start_valve, stop_valve, gps_switched, apn_set, rebooted, reported,
}
use dock_neighbor_hub.Api.Valves.{claimed}
use dock_neighbor_hub.Api.Floods.{
  flood_stop, flood_stops, flood_valves, is_nothing, linktap_flood_stop_all,
}
use dock_neighbor_hub.Store.{read_config}
use dock_neighbor_hub.LinktapRuntime.{Runtime}

abbrev pub flood_watched : Option CloseWatch → Bool
flood_watched none = false
flood_watched (some w) = is_flood w.cause

-- A flood close of the valve is in flight.
abbrev pub is_flooding : Closes → String → Bool
is_flooding closes id = flood_watched (lookup (normalize_dev_id id) closes)

claim_flood :
    (closes : Closes) (id k : String) (now_ms : ℕ)
    → (is_flooding (claim_close closes id flood now_ms).1 k
        ≡ (str_eq (normalize_dev_id id) (normalize_dev_id k) || is_flooding closes k))
      × ((claim_close closes id flood now_ms).0 ≡ not (is_flooding closes id))
unfolding claim_close overrides opened
claim_flood closes id k now_ms =
    let i = normalize_dev_id id in
    let j = normalize_dev_id k in
    ground (arith, lookup-insert i j (opened flood now_ms) closes, str_eq_iff i j)

abbrev pub is_stop_of : {V : Type 0} → String → Effect V → Bool
is_stop_of id (stop_valve s) = str_eq (normalize_dev_id s) (normalize_dev_id id)
is_stop_of id (start_valve s secs cap) = false
is_stop_of id (gps_switched host on) = false
is_stop_of id (apn_set host apn) = false
is_stop_of id (rebooted host) = false
is_stop_of id (reported r) = false
is_stop_of id wake = false
is_stop_of id gps_wake = false
is_stop_of id router_wake = false
is_stop_of id linktap_wake = false
is_stop_of id sensor_wake = false
is_stop_of id key_wake = false
is_stop_of id start_update = false

-- A stop was sent to the valve.
abbrev pub stopped : {V : Type 0} → List (Effect V) → String → Bool
stopped es id = any (is_stop_of id) es

flooding_same :
    (closes : Closes) (id k : String)
    → str_eq (normalize_dev_id id) (normalize_dev_id k) ≡ true
    → is_flooding closes id ≡ is_flooding closes k
flooding_same closes id k h =
    ap (λ i. flood_watched (lookup i closes))
      ((str_eq_iff (normalize_dev_id id) (normalize_dev_id k)).0 h)

nothing_known :
    {V : Type 0} (ids : List String) (r : Option (Runtime V)) (k : String)
    → is_nothing ids r ≡ true
    → any (λ id. str_eq (normalize_dev_id id) (normalize_dev_id k)) ids ≡ true
    → ⊥
nothing_known [] none k e h = cc
nothing_known [] (some r) k e h = cc
nothing_known (d ∷ ds) r k e h = cc

module _ {V : Type 0} where
  -- The valve's flood close is in flight; and if none was before, a stop went out.
  abbrev pub Answered : Rt V → Rt V → String → Type 0
  Answered before after k =
      (is_flooding after.valve_closes k ≡ true)
      × ((is_flooding before.valve_closes k || stopped after.effects k) ≡ true)

  flood_stop_step :
      (w : World) (rt : Rt V) (id k : String)
      → (let after = flood_stop w rt id in
          (is_flooding after.valve_closes k
            ≡ (str_eq (normalize_dev_id id) (normalize_dev_id k) || is_flooding rt.valve_closes k))
          × (stopped after.effects k ≡ (
              (str_eq (normalize_dev_id id) (normalize_dev_id k)
                && not (is_flooding rt.valve_closes id))
              || stopped rt.effects k)))
  unfolding flood_stop claimed
  flood_stop_step w rt id k = let c = claim_flood rt.valve_closes id k w.now_ms in ground (arith, c)

  -- A valve that is flooding was so before, or a stop went out to it.
  abbrev Told : Rt V → Rt V → String → Type 0
  Told before after k =
      is_flooding after.valve_closes k ≡ true
      → (is_flooding before.valve_closes k || stopped after.effects k) ≡ true

  flood_stop-Told :
      (w : World) (before rt : Rt V) (id k : String)
      → Told before rt k
      → Told before (flood_stop w rt id) k
  flood_stop-Told w before rt id k told h =
      let s = flood_stop_step w rt id k in
      ground (arith, told, h, s, flooding_same rt.valve_closes id k)

  flood_stops_run :
      (w : World) (ids : List String) (before rt : Rt V) (k : String)
      → Told before rt k
      → (any (λ id. str_eq (normalize_dev_id id) (normalize_dev_id k)) ids
          || is_flooding rt.valve_closes k)
        ≡ true
      → Answered before (flood_stops w ids rt) k
  unfolding flood_stops
  flood_stops_run w [] before rt k told h =
      let now : is_flooding rt.valve_closes k ≡ true = ground (arith, h) in (now, told now)
  flood_stops_run w (id ∷ ids) before rt k told h =
      let s = flood_stop_step w rt id k in
      flood_stops_run w ids before (flood_stop w rt id) k (flood_stop-Told w before rt id k told)
        (ground (arith, h, s))

  -- After a flood report each valve of the hub, those of the running machine or of the stored
  -- configuration, has a flood close in flight; and if none was in flight before, a stop was sent
  -- to it during the call.
  pub linktap_flood_stop_all-answers :
      (w : World) (rt : Rt V) (k : String)
      → any
          (λ id. str_eq (normalize_dev_id id) (normalize_dev_id k))
          (flood_valves (read_config rt.file).linktap rt.linktap)
        ≡ true
      → Answered rt (linktap_flood_stop_all w (record rt { effects = [] })) k
  unfolding linktap_flood_stop_all
  linktap_flood_stop_all-answers w rt k h =
      let start = record rt { effects = [] } in
      let ids = flood_valves (read_config rt.file).linktap rt.linktap in
      let run = flood_stops_run w ids rt start k (λ now. ground (arith, now)) (ground (arith, h)) in
      elim (Bool-cases (is_nothing ids rt.linktap)) [
        | inr e ↦ rw e run
        | inl e ↦ absurd (nothing_known ids rt.linktap k e h)
      ]
