-- ===== src/Readings/Due.antt =====
-- daemon/src/hub_server.rs: `shelly_reading_due`, which keeps the newest reading of each sensor for
-- the keyframe and one gate for each device and value, the marks of a delivered keyframe
-- (`apply_sent_marks`), and `forward_shelly_to_cloud` up to the queue. `parse` reads a number as
-- `str::parse::<f64>` does.
use dock_neighbor_hub.Shared.{
  ℕ, Bool, ◌||◌, Option, none, some, List, [], ◌∷◌, String, ◌<>◌, str_eq, is_empty, if◌then◌else◌,
  lookup, insert,
}
use dock_neighbor_hub.Float.{Float64}
use dock_neighbor_hub.LinktapRuntime.{unwrap_or, and_then}
use dock_neighbor_hub.Cadence.{is_telemetry_event}
use dock_neighbor_hub.Spool.{ShellyCall, QueuedShelly, enqueue_shelly, max_shelly_queue}
use dock_neighbor_hub.Readings.{
  ReadingKind, ReadingGate, fresh_gate, reading_kind, observe, mark_sent,
}

pub record ShellyCached : Type 0 where
  pub event : String
  pub params : List (String × String)
  pub heard_ms : ℕ

-- The part of `Telemetry` that readings use.
pub record Readings (V : Type 0) : Type 0 where
  pub shelly_latest : List (String × ShellyCached)
  pub reading_gates : List (String × ReadingGate V)

unfoldable pub put_param : String → String → List (String × String) → List (String × String)
put_param k v [] = (k, v) ∷ []
put_param k v ((j, w) ∷ ps) = if str_eq j k then (j, v) ∷ ps else (j, w) ∷ put_param k v ps

unfoldable pub put_params : List (String × String) → List (String × String) → List (String × String)
unfolding put_param
put_params [] ps = ps
put_params ((k, v) ∷ extras) ps = put_params extras (put_param k v ps)

abbrev pub or_else : {A : Type 0} → Option A → Option A → Option A
or_else (some a) b = some a
or_else none b = b

-- The last of the key.
unfoldable pub last_param : String → List (String × String) → Option String
last_param k [] = none
last_param k ((j, v) ∷ ps) = or_else (last_param k ps) (if str_eq j k then some v else none)

unfoldable pub heard : ℕ → ShellyCall → Option ShellyCached → ShellyCached
unfolding put_params
heard now_ms call old = record {
  event = call.event;
  params = put_params call.extras (elim old [ none ↦ [] | some c ↦ c.params ]);
  heard_ms = now_ms;
}

unfoldable pub gate_key : ShellyCall → String
unfolding reading_kind
gate_key call = call.device <> ("|" <> (reading_kind call.event).1)

module _ {V : Type 0} where
  abbrev pub gate_of : Readings V → String → ReadingGate V
  gate_of t key = unwrap_or (lookup key t.reading_gates) fresh_gate

  -- The value that the rule of an event reads.
  unfoldable pub value_of : (String → Option V) → ShellyCall → Option V
  unfolding reading_kind last_param
  value_of parse call =
      let key = (reading_kind call.event).1 in
      if is_empty key then none else and_then (last_param key call.extras) parse

module _ {V : Type 0} ⦃f : Float64 V⦄ where
  -- The gate after a reading, and whether it goes to the cloud now.
  unfoldable pub gate_step : ReadingGate V → ReadingKind → V → Bool → ReadingGate V × Bool
  unfolding observe mark_sent
  gate_step gate kind v leased =
      let o = observe gate kind v in
      let due = o.1 || leased in ((if due then mark_sent o.0 v else o.0), due)

  -- The cache takes every report; a report without a value goes only while a member is watching.
  unfoldable pub cache_and_gate : ℕ → Bool → Readings V → ShellyCall → Option V → Readings V × Bool
  unfolding gate_step heard gate_key
  cache_and_gate now_ms leased t call value =
      let cached = heard now_ms call (lookup call.device t.shelly_latest) in
      let t' = record t { shelly_latest = insert call.device cached t.shelly_latest } in
      elim value [
        | none ↦ (t', leased)
        | some v ↦
            let s = gate_step (gate_of t (gate_key call)) (reading_kind call.event).0 v leased in
            (record t' { reading_gates = insert (gate_key call) s.0 t.reading_gates }, s.1)
      ]

  unfoldable pub shelly_reading_due :
      (String → Option V) → ℕ → Bool → Readings V → ShellyCall → Readings V × Bool
  unfolding value_of cache_and_gate
  shelly_reading_due parse now_ms leased t call =
      cache_and_gate now_ms leased t call (value_of parse call)

  -- A delivered keyframe makes a value the last sent.
  unfoldable pub mark_reading : String → V → Readings V → Readings V
  unfolding mark_sent
  mark_reading key v t = record t {
    reading_gates = insert key (mark_sent (gate_of t key) v) t.reading_gates;
  }

-- What a forwarded report touches before the queue is drained.
pub record Forwarding (V : Type 0) : Type 0 where
  pub readings : Readings V
  pub pending_shelly : List QueuedShelly
  pub last_activity_ms : ℕ

module _ {V : Type 0} ⦃f : Float64 V⦄ where
  abbrev pub queued : ℕ → ShellyCall → Forwarding V → Forwarding V
  queued now_ms call s =
      let item : QueuedShelly = record { call = call; queued_ms = now_ms; attempts = 0 } in
      record s { pending_shelly = (enqueue_shelly s.pending_shelly item max_shelly_queue).0 }

  unfoldable pub forward_shelly_to_cloud :
      (String → Option V) → ℕ → Bool → ShellyCall → Forwarding V → Forwarding V
  unfolding shelly_reading_due is_telemetry_event
  forward_shelly_to_cloud parse now_ms leased call s =
      let d = shelly_reading_due parse now_ms leased s.readings call in
      let read = record s { readings = d.0 } in
      if is_telemetry_event call.event
      then (if d.1 then queued now_ms call read else read)
      else queued now_ms call (record s { last_activity_ms = now_ms })
