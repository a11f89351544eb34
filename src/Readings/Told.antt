-- ===== src/Readings/Told.antt =====
-- What a gate compares with is the last value that the cloud was told, by a report or a keyframe.
use dock_neighbor_hub.Shared.{
  ℕ, ◌≡◌, ◌∙◌, refl, sym, ap, inl, inr, Bool, true, false, ◌&&◌, ◌||◌, Option, none, some, List, [],
  ◌∷◌, String, str_eq, str_eq_iff, if◌then◌else◌, lookup, insert, lookup-insert, arith, Bool-cases,
}
use dock_neighbor_hub.Float.{Float64}
use dock_neighbor_hub.LinktapRuntime.{unwrap_or}
use dock_neighbor_hub.Spool.{ShellyCall}
use dock_neighbor_hub.Readings.{
  ReadingKind, battery_bank, shore_ac, temperature, humidity, other, ReadingGate, fresh_gate,
  DeltaGate, reading_kind, observe, exceeds, mark_sent, delta_sent, distance, observe_battery,
  observe_shore, observe_temperature, reverses, move_of,
}
use dock_neighbor_hub.Readings.Due.{
  Readings, or_else, gate_of, gate_key, gate_step, cache_and_gate, value_of, shelly_reading_due,
  mark_reading,
}

-- A sensor's report, with the time and whether a member is watching, or a value of a keyframe.
pub data Move (V : Type 0) : Type 0 where
  reading : ℕ → Bool → ShellyCall → Move V
  delivered : String → V → Move V

-- The readings of a hub that has just started.
abbrev pub at_start : {V : Type 0} → Readings V
at_start = record { shelly_latest = []; reading_gates = [] }

also : (a b : Bool) → b ≡ true → (a || b) ≡ true
also true b h = refl
also false b h = h

module _ {V : Type 0} ⦃f : Float64 V⦄ where
  observe-delta :
      (g : ReadingGate V) (kind : ReadingKind) (v : V) → (observe g kind v).0.delta ≡ g.delta
  unfolding observe observe_battery observe_shore observe_temperature
  observe-delta g battery_bank v = refl
  observe-delta g shore_ac v = refl
  observe-delta g temperature v = refl
  observe-delta g humidity v = refl
  observe-delta g other v = refl

  gate_step-last :
      (g : ReadingGate V) (kind : ReadingKind) (v : V) (leased : Bool)
      → (let s = gate_step g kind v leased in
          s.0.delta.last_sent ≡ (if s.1 then some v else g.delta.last_sent))
  unfolding gate_step mark_sent delta_sent
  gate_step-last g kind v leased = elim (Bool-cases ((observe g kind v).1 || leased)) [
    | inl e ↦ rw e refl
    | inr e ↦ rw e (ap (λ d. d.last_sent) (observe-delta g kind v))
  ]

  picked :
      (b : Bool) (v : V) (x y : Option V)
      → x ≡ y
      → (if b then some v else x) ≡ or_else (if b && true then some v else none) y
  picked true v x y p = refl
  picked false v x y p = p

  passed : (b : Bool) (v : V) (x : Option V) → x ≡ or_else (if b && false then some v else none) x
  passed true v x = refl
  passed false v x = refl

  gate_of-insert :
      (t : Readings V) (k key : String) (g : ReadingGate V)
      → unwrap_or (lookup key (insert k g t.reading_gates)) fresh_gate
        ≡ (if str_eq k key then g else gate_of t key)
  gate_of-insert t k key g = elim (Bool-cases (str_eq k key)) [
    | inl e ↦ rw (lookup-insert k key g t.reading_gates, e) refl
    | inr e ↦ rw (lookup-insert k key g t.reading_gates, e) refl
  ]

  cache_and_gate-last :
      (t : Readings V) (now_ms : ℕ) (leased : Bool) (call : ShellyCall) (value : Option V)
      (key : String)
      → (let s = cache_and_gate now_ms leased t call value in
          (gate_of s.0 key).delta.last_sent
          ≡ or_else
              (if s.1 && str_eq (gate_key call) key then value else none)
              (gate_of t key).delta.last_sent)
  unfolding cache_and_gate
  cache_and_gate-last t now_ms leased call none key = ground arith
  cache_and_gate-last t now_ms leased call (some v) key =
      let k = gate_key call in
      let kind = (reading_kind call.event).0 in
      let s = gate_step (gate_of t k) kind v leased in
      let i = ap (λ g. g.delta.last_sent) (gate_of-insert t k key s.0) in
      elim (Bool-cases (str_eq k key)) [
        | inl e ↦
            let there = ap (λ j. (gate_of t j).delta.last_sent) ((str_eq_iff k key).0 e) in
            i ∙ rw e (gate_step-last (gate_of t k) kind v leased ∙ picked s.1 v _ _ there)
        | inr e ↦ i ∙ rw e (passed s.1 v _)
      ]

  -- The move that a reading of each kind is sent for.
  abbrev pub threshold_of : ReadingKind → V → Option V
  threshold_of battery_bank v =
      some (f.mul_f (f.lit 2 1) (if f.lt_f (f.lit 18 0) v then f.lit 2 0 else f.lit 1 0))
  threshold_of shore_ac v = none
  threshold_of temperature v = some (f.lit 1 0)
  threshold_of humidity v = some (f.lit 5 0)
  threshold_of other v = none

  exceeds_far :
      (g : DeltaGate V) (v last threshold : V)
      → g.last_sent ≡ some last
      → f.le_f threshold (distance v last) ≡ true
      → f.le_f (f.mul_f threshold (f.lit 15 1)) (distance v last) ≡ true
      → exceeds g v threshold ≡ true
  unfolding exceeds
  exceeds_far g v last threshold h near far =
      elim (Bool-cases (reverses g.dir (move_of (f.sub_f v last)))) [
        | inl e ↦ rw (h, exceeds, e) far
        | inr e ↦ rw (h, exceeds, e) near
      ]

  observe_far :
      (g : ReadingGate V) (kind : ReadingKind) (v last threshold : V)
      → g.delta.last_sent ≡ some last
      → threshold_of kind v ≡ some threshold
      → f.le_f threshold (distance v last) ≡ true
      → f.le_f (f.mul_f threshold (f.lit 15 1)) (distance v last) ≡ true
      → (observe g kind v).1 ≡ true
  unfolding observe observe_battery observe_temperature
  observe_far g battery_bank v last threshold h k near far =
      let x = f.mul_f (f.lit 2 1) (if f.lt_f (f.lit 18 0) v then f.lit 2 0 else f.lit 1 0) in
      let e : x ≡ threshold = cc in
      also _ (exceeds g.delta v x) (rw e (exceeds_far g.delta v last threshold h near far))
  observe_far g shore_ac v last threshold h k near far = cc
  observe_far g temperature v last threshold h k near far =
      let e : f.lit 1 0 ≡ threshold = cc in
      also _ (exceeds g.delta v (f.lit 1 0))
        (rw e (exceeds_far g.delta v last threshold h near far))
  observe_far g humidity v last threshold h k near far =
      let e : f.lit 5 0 ≡ threshold = cc in rw e (exceeds_far g.delta v last threshold h near far)
  observe_far g other v last threshold h k near far = cc

  due_if_far :
      (t : Readings V) (now_ms : ℕ) (leased : Bool) (call : ShellyCall) (value : Option V)
      (v last threshold : V)
      → value ≡ some v
      → threshold_of (reading_kind call.event).0 v ≡ some threshold
      → (gate_of t (gate_key call)).delta.last_sent ≡ some last
      → f.le_f threshold (distance v last) ≡ true
      → f.le_f (f.mul_f threshold (f.lit 15 1)) (distance v last) ≡ true
      → (cache_and_gate now_ms leased t call value).1 ≡ true
  unfolding cache_and_gate gate_step
  due_if_far t now_ms leased call none v last threshold e k h near far = cc
  due_if_far t now_ms leased call (some w) v last threshold e k h near far =
      let same : w ≡ v = cc in
      let kind = (reading_kind call.event).0 in
      rw (same, observe_far (gate_of t (gate_key call)) kind v last threshold h k near far) refl

module _ {V : Type 0} ⦃f : Float64 V⦄ (parse : String → Option V) where
  abbrev pub step : Move V → Readings V → Readings V
  step (reading now_ms leased call) t = (shelly_reading_due parse now_ms leased t call).0
  step (delivered key v) t = mark_reading key v t

  -- The value that a move tells the cloud under a key.
  abbrev pub told : String → Move V → Readings V → Option V
  told key (reading now_ms leased call) t =
      if (shelly_reading_due parse now_ms leased t call).1 && str_eq (gate_key call) key
      then value_of parse call
      else none
  told key (delivered k v) t = if str_eq k key then some v else none

  pub after : List (Move V) → Readings V → Readings V
  after [] t = t
  after (m ∷ ms) t = after ms (step m t)

  unfoldable pub last_told : String → List (Move V) → Readings V → Option V → Option V
  last_told key [] t old = old
  last_told key (m ∷ ms) t old = last_told key ms (step m t) (or_else (told key m t) old)

  step-last :
      (m : Move V) (t : Readings V) (key : String)
      → (gate_of (step m t) key).delta.last_sent
        ≡ or_else (told key m t) (gate_of t key).delta.last_sent
  unfolding mark_reading mark_sent delta_sent shelly_reading_due
  step-last (delivered k v) t key =
      let i = gate_of-insert t k key (mark_sent (gate_of t k) v) in
      elim (Bool-cases (str_eq k key)) [ inl e ↦ rw (i, e) refl | inr e ↦ rw (i, e) refl ]
  step-last (reading now_ms leased call) t key =
      cache_and_gate-last t now_ms leased call (value_of parse call) key

  last_told-step :
      (m : Move V) (t : Readings V) (key : String) (ms : List (Move V))
      → last_told key (m ∷ ms) t (gate_of t key).delta.last_sent
        ≡ last_told key ms (step m t) (gate_of (step m t) key).delta.last_sent
  unfolding last_told
  last_told-step m t key ms = rw (step-last m t key) refl

  after-last_told :
      (ms : List (Move V)) (t : Readings V) (key : String)
      → (gate_of (after ms t) key).delta.last_sent
        ≡ last_told key ms t (gate_of t key).delta.last_sent
  unfolding after last_told
  after-last_told [] t key = refl
  after-last_told (m ∷ ms) t key =
      after-last_told ms (step m t) key ∙ sym (last_told-step m t key ms)

  -- Over any run of reports and delivered keyframes since the hub started: a bank voltage, a
  -- temperature or a humidity is sent at once if, from the last value told to the cloud under its
  -- device and name, it moved by the threshold of its kind and by one and a half of it.
  pub moved-told :
      (ms : List (Move V)) (now_ms : ℕ) (leased : Bool) (call : ShellyCall) (v last threshold : V)
      → value_of parse call ≡ some v
      → threshold_of (reading_kind call.event).0 v ≡ some threshold
      → last_told (gate_key call) ms at_start none ≡ some last
      → f.le_f threshold (distance v last) ≡ true
      → f.le_f (f.mul_f threshold (f.lit 15 1)) (distance v last) ≡ true
      → (shelly_reading_due parse now_ms leased (after ms at_start) call).1 ≡ true
  unfolding shelly_reading_due lookup
  moved-told ms now_ms leased call v last threshold value k told near far =
      due_if_far (after ms at_start) now_ms leased call (value_of parse call) v last threshold value
        k (after-last_told ms at_start (gate_key call) ∙ told) near far
