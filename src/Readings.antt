-- ===== src/Readings.antt =====
-- daemon/src/cadence.rs: the gates that a sensor's readings pass before they are sent at once.
pub mod Due
pub mod Told
pub mod Shore
use dock_neighbor_hub.Shared.{
  ℕ, Bool, true, false, not, ◌&&◌, ◌||◌, Option, none, some, List, [], ◌∷◌, String, ◌<>◌, codes,
  has_prefix, to_ascii_lowercase, str_eq, is_empty, if◌then◌else◌, lookup, insert, is_some,
}
use dock_neighbor_hub.Float.{Float64}
use dock_neighbor_hub.LinktapRuntime.{unwrap_or}
use dock_neighbor_hub.Cadence.{is_telemetry_event}
use dock_neighbor_hub.Spool.{ShellyCall, QueuedShelly, enqueue_shelly, max_shelly_queue}

-- The sign of a move: -1, 0 and 1.
pub data Direction : Type 0 where
  falling level rising : Direction

pub record DeltaGate (V : Type 0) : Type 0 where
  pub last_sent : Option V
  pub dir : Direction

pub record Line (V : Type 0) : Type 0 where
  pub at : V
  pub below_is_bad : Bool

pub data ReadingKind : Type 0 where
  battery_bank shore_ac temperature humidity other : ReadingKind

-- The two lines are an array of two.
pub record ReadingGate (V : Type 0) : Type 0 where
  pub delta : DeltaGate V
  pub lines : Option Bool × Option Bool
  pub shore : Option Bool

abbrev pub fresh_gate : {V : Type 0} → ReadingGate V
fresh_gate = record {
  delta = record { last_sent = none; dir = level };
  lines = (none, none);
  shore = none;
}

unfoldable pub reading_kind : String → ReadingKind × String
reading_kind event =
    let e = to_ascii_lowercase (codes event) in
    if has_prefix e (codes "voltmeter.")
    then (battery_bank, "v")
    else if has_prefix e (codes "pm1.voltage")
    then (shore_ac, "v")
    else if has_prefix e (codes "temperature.")
    then (temperature, "tC")
    else if has_prefix e (codes "humidity.")
    then (humidity, "rh")
    else (other, "")

-- The move goes against the last one that was sent.
abbrev pub reverses : Direction → Direction → Bool
reverses falling rising = true
reverses rising falling = true
reverses falling falling = false
reverses falling level = false
reverses rising rising = false
reverses rising level = false
reverses level d = false

abbrev pub is_beyond : Option Bool → Bool
is_beyond (some true) = true
is_beyond (some false) = false
is_beyond none = false

-- `beyond.map_or(now, |b| b != now)`.
abbrev pub flipped : Option Bool → Bool → Bool
flipped none now = now
flipped (some true) now = not now
flipped (some false) now = now

-- A first reading tells only of a shore that is lost.
abbrev pub shore_changed : Option Bool → Option Bool → Bool
shore_changed (some true) (some b) = not b
shore_changed (some false) (some b) = b
shore_changed none (some b) = not b
shore_changed (some a) none = false
shore_changed none none = false

module _ {V : Type 0} ⦃f : Float64 V⦄ where
  abbrev pub move_of : V → Direction
  move_of d =
      if f.lt_f (f.lit 0 0) d then rising else if f.lt_f d (f.lit 0 0) then falling else level

  -- `abs`, but for the sign of a zero, to which a number is added.
  abbrev pub abs_f : V → V
  abs_f d = if f.lt_f d (f.lit 0 0) then f.sub_f (f.lit 0 0) d else d

  -- How far a value is from another, with the slack of a rounding.
  abbrev pub distance : V → V → V
  distance v last = f.add_f (abs_f (f.sub_f v last)) (f.lit 1 9)

  abbrev pub needed : Direction → Direction → V → V
  needed sent dir threshold =
      if reverses sent dir then f.mul_f threshold (f.lit 15 1) else threshold

  unfoldable pub exceeds : DeltaGate V → V → V → Bool
  exceeds g v threshold = elim g.last_sent [
    | none ↦ false
    | some last ↦ f.le_f (needed g.dir (move_of (f.sub_f v last)) threshold) (distance v last)
  ]

  abbrev is_zero : V → Bool
  is_zero d = f.le_f d (f.lit 0 0) && f.le_f (f.lit 0 0) d

  abbrev turned : Direction → V → Direction
  turned dir d = if is_zero d then dir else if f.lt_f (f.lit 0 0) d then rising else falling

  unfoldable pub delta_sent : DeltaGate V → V → DeltaGate V
  delta_sent g v = record {
    last_sent = some v;
    dir = elim g.last_sent [ none ↦ g.dir | some last ↦ turned g.dir (f.sub_f v last) ];
  }

  abbrev pub now_beyond : Bool → Line V → V → V → Bool
  now_beyond true line v band =
      if line.below_is_bad then f.lt_f v (f.add_f line.at band) else f.lt_f (f.sub_f line.at band) v
  now_beyond false line v band = if line.below_is_bad then f.lt_f v line.at else f.lt_f line.at v

  -- The side of the line that the value is on now, and whether it changed.
  unfoldable pub line_step : Option Bool → Line V → V → V → Option Bool × Bool
  line_step beyond line v band =
      let now = now_beyond (is_beyond beyond) line v band in (some now, flipped beyond now)

  -- A crossed line or a large enough move. A first value that crosses no line sets the baseline.
  abbrev pub crossed_or_moved :
      ReadingGate V → Option Bool × Bool → Option Bool × Bool → V → V → ReadingGate V × Bool
  unfolding exceeds
  crossed_or_moved g a b v threshold =
      let first = not (is_some g.delta.last_sent) in
      let bad = is_beyond a.0 || is_beyond b.0 in
      (
        record g { lines = (a.0, b.0) },
        ((a.1 || b.1) && not (first && not bad)) || exceeds g.delta v threshold,
      )

  unfoldable pub observe_battery : ReadingGate V → V → ReadingGate V × Bool
  unfolding line_step crossed_or_moved
  observe_battery g v =
      let scale = if f.lt_f (f.lit 18 0) v then f.lit 2 0 else f.lit 1 0 in
      let delta = f.mul_f (f.lit 2 1) scale in
      let half = f.div_f delta (f.lit 2 0) in
      let high : Line V = record { at = f.mul_f (f.lit 122 1) scale; below_is_bad = true } in
      let low : Line V = record { at = f.mul_f (f.lit 118 1) scale; below_is_bad = true } in
      crossed_or_moved g (line_step g.lines.0 high v half) (line_step g.lines.1 low v half) v delta

  -- Present or lost, and within the band what it was.
  abbrev pub shore_side : Option Bool → V → Option Bool
  shore_side shore v =
      if f.lt_f v (f.lit 90 0)
      then some false
      else if f.le_f (f.lit 100 0) v
      then some true
      else shore

  unfoldable pub observe_shore : ReadingGate V → V → ReadingGate V × Bool
  observe_shore g v =
      let next = shore_side g.shore v in
      (
        record g { shore = elim next [ some b ↦ some b | none ↦ g.shore ] },
        shore_changed g.shore next,
      )

  unfoldable pub observe_temperature : ReadingGate V → V → ReadingGate V × Bool
  unfolding line_step crossed_or_moved
  observe_temperature g v =
      let delta = f.lit 1 0 in
      let band = f.div_f delta (f.lit 2 0) in
      let freeze : Line V = record { at = f.lit 2 0; below_is_bad = true } in
      let heat : Line V = record { at = f.lit 45 0; below_is_bad = false } in
      crossed_or_moved g (line_step g.lines.0 freeze v band) (line_step g.lines.1 heat v band) v
        delta

  unfoldable pub observe : ReadingGate V → ReadingKind → V → ReadingGate V × Bool
  unfolding observe_battery observe_shore observe_temperature exceeds
  observe g battery_bank v = observe_battery g v
  observe g shore_ac v = observe_shore g v
  observe g temperature v = observe_temperature g v
  observe g humidity v = (g, exceeds g.delta v (f.lit 5 0))
  observe g other v = (g, false)

  unfoldable pub mark_sent : ReadingGate V → V → ReadingGate V
  unfolding delta_sent
  mark_sent g v = record g { delta = delta_sent g.delta v }
