-- ===== src/GatewayWatch/Episodes.antt =====
-- The reports of a gateway over its outages: what a run of polls says.
use dock_neighbor_hub.Shared.{
  ℕ, ◌-◌, ◌≡◌, refl, Bool, true, false, Option, none, some, String, List, [], ◌∷◌, if◌then◌else◌,
  arith, leb, any, has_suffix, to_ascii_lowercase, contains, has_prefix,
}
use dock_neighbor_hub.Linktap.{Report, Gateway}
use dock_neighbor_hub.GatewayWatch.{
  GatewayWatch, gateway_watch_step, gateway_report, silent_since, gateway_offline_event,
  gateway_online_event, grace_ms, is_flood_shutoff, flood_shutoff_of,
}

-- One poll: whether the gateway answered, and when.
pub record Poll : Type 0 where
  pub reached : Bool
  pub at : ℕ

abbrev pub told : Option Report → List String → List String
told none events = events
told (some r) events = r.event ∷ events

-- The events of a run of polls, in order.
pub events_of : Gateway → GatewayWatch → List Poll → List String
events_of gw watch [] = []
events_of gw watch (p ∷ ps) =
    let r = gateway_watch_step watch gw p.reached p.at in told r.1 (events_of gw r.0 ps)

-- Offline and online in turn; the first is offline unless an outage is already told.
abbrev pub Alternate : Bool → List String → Type 0
Alternate outage [] = Unit {0}
Alternate false (e ∷ es) = (e ≡ gateway_offline_event) × Alternate true es
Alternate true (e ∷ es) = (e ≡ gateway_online_event) × Alternate false es

-- Over any run of polls the hub reports a gateway offline and online strictly in turn: no outage is
-- told twice, and no recovery is told of an outage that was not.
pub events_of-Alternate :
    (gw : Gateway) (watch : GatewayWatch) (ps : List Poll)
    → Alternate watch.offline_reported (events_of gw watch ps)
unfolding events_of gateway_watch_step gateway_report silent_since
events_of-Alternate gw watch [] = ground arith
events_of-Alternate gw watch (p ∷ ps) =
    let ih = events_of-Alternate gw (gateway_watch_step watch gw p.reached p.at).0 ps in
    ground (arith, ih)

-- The polls that a silent gateway did not answer.
abbrev pub silences : List ℕ → List Poll
silences [] = []
silences (n ∷ ns) = record { reached = false; at = n } ∷ silences ns

told_already :
    (gw : Gateway) (since : ℕ) (ns : List ℕ)
    → events_of gw (record { last_seen_ms = some since; offline_reported = true }) (silences ns)
      ≡ []
unfolding events_of gateway_watch_step gateway_report silent_since
told_already gw since [] = refl
told_already gw since (n ∷ ns) = ground (arith, told_already gw since ns)

-- A gateway last heard at some instant and silent since is reported offline exactly once if some
-- poll comes thirty minutes later or more, and otherwise not at all.
pub silence_reported :
    (gw : Gateway) (since : ℕ) (ns : List ℕ)
    → events_of gw (record { last_seen_ms = some since; offline_reported = false }) (silences ns)
      ≡ (if any (λ n. leb grace_ms (n - since)) ns then gateway_offline_event ∷ [] else [])
unfolding events_of gateway_watch_step gateway_report silent_since
silence_reported gw since [] = refl
silence_reported gw since (n ∷ ns) =
    ground (arith, silence_reported gw since ns, told_already gw since ns)

offline_no_flood : is_flood_shutoff gateway_offline_event ≡ false
unfolding is_flood_shutoff flood_shutoff_of has_suffix to_ascii_lowercase contains has_prefix
offline_no_flood = refl

online_no_flood : is_flood_shutoff gateway_online_event ≡ false
unfolding is_flood_shutoff flood_shutoff_of has_suffix to_ascii_lowercase contains has_prefix
online_no_flood = refl

-- No report of the watch is itself taken for a flood.
pub gateway_watch_step-no_flood :
    (watch : GatewayWatch) (gw : Gateway) (reached : Bool) (now_ms : ℕ) (r : Report)
    → (gateway_watch_step watch gw reached now_ms).1 ≡ some r
    → is_flood_shutoff r.event ≡ false
unfolding gateway_watch_step gateway_report silent_since
gateway_watch_step-no_flood watch gw reached now_ms r h =
    ground (arith, offline_no_flood, online_no_flood)
