-- ===== src/TrayState/Alerts.antt =====
-- What the tray shows and says over a history of polls, the newest first.
use dock_neighbor_hub.Shared.{
  ◌≡◌, ◌⊎◌, refl, Bool, true, false, not, ◌||◌, List, [], ◌∷◌, Option, none, some, arith,
  if◌then◌else◌, any,
}
use dock_neighbor_hub.TrayState.{
  Observation, Icon, Alert, Monitor, ok, needs_signing, bad, absent, recovered, new, is_bad,
  classify, diagnose, observe, alert_of, or_reason, alert_eq,
}

pub watched : List Observation → Monitor
watched [] = new
watched (o ∷ older) = (observe (watched older) o).0

abbrev pub installed_then : Observation → Bool
installed_then o = o.service_present || o.binary_present

abbrev pub answered_then : Observation → Bool
answered_then o = o.answering

-- The icon that a history of polls calls for: the answer decides while there is one, and silence is
-- bad exactly on a machine where a hub was ever seen, installed or answering.
pub icon_of : Observation → List Observation → Icon
icon_of o older =
    if o.answering
    then (if o.registered then ok else needs_signing)
    else if any installed_then (o ∷ older) || any answered_then older
    then bad
    else absent

record Remembers (m : Monitor) (h : List Observation) : Type 0 where
  working : m.seen_working ≡ any answered_then h
  installed : m.seen_installed ≡ any installed_then h

watched-Remembers : (h : List Observation) → Remembers (watched h) h
unfolding watched observe classify
watched-Remembers [] = record { working = refl; installed = refl }
watched-Remembers (o ∷ older) = ground (arith, watched-Remembers older)

-- The icon after any history of polls is the one the history calls for.
pub observe-icon :
    (o : Observation) (older : List Observation) → (observe (watched older) o).1 ≡ icon_of o older
unfolding observe classify icon_of
observe-icon o older = ground (arith, watched-Remembers older)

abbrev pub is_nil : List Observation → Bool
is_nil [] = true
is_nil (o ∷ older) = false

watched-icon :
    (o : Observation) (older : List Observation)
    → (watched (o ∷ older)).last ≡ some (icon_of o older)
unfolding watched observe
watched-icon o older = ground (arith, observe-icon o older)

-- What one step makes of the memory, with the icon and the reason left shut.
remembered :
    (m : Monitor) (o : Observation) (i : Icon)
    → (observe m o).1 ≡ i
    → (observe m o).0.last_reason
      ≡ (if is_bad i then or_reason (observe m o).2 m.last_reason else none)
unfolding observe
remembered m o i e = ground arith

alerted :
    (m : Monitor) (o : Observation) (i : Icon)
    → (observe m o).1 ≡ i
    → (observe m o).2 ≡ alert_of m.last m.last_reason i (diagnose o)
unfolding observe
alerted m o i e = ground arith

pick_reason :
    (last : Icon) (m : Option Alert) (i : Icon) (r : Alert)
    → is_bad i ≡ true
    → (m ≡ none) ⊎ (is_bad last ≡ true)
    → or_reason (alert_of (some last) m i r) m ≡ some r
unfolding alert_of
pick_reason last m i r b h = ground arith

watched-reason :
    (o : Observation) (older : List Observation)
    → (watched (o ∷ older)).last_reason ≡ (
        if is_bad (icon_of o older)
        then (if is_nil older then none else some (diagnose o))
        else none)
unfolding watched alert_of
watched-reason o [] =
    ground (arith, remembered new o _ (observe-icon o []), alerted new o _ (observe-icon o []))
watched-reason o (p ∷ older) =
    let m = watched (p ∷ older) in
    let i = icon_of o (p ∷ older) in
    ground (
      arith,
      watched-icon p older,
      watched-reason p older,
      remembered m o i (observe-icon o (p ∷ older)),
      alerted m o i (observe-icon o (p ∷ older)),
      pick_reason (icon_of p older) m.last_reason i (diagnose o),
    )

-- After the first poll the user is told exactly when the hub turns bad, when the reason for a bad
-- hub changes, on the second poll of a session that began bad, and when a bad hub works again.
pub observe-alert :
    (o p : Observation) (older : List Observation)
    → (observe (watched (p ∷ older)) o).2 ≡ (
        if is_bad (icon_of o (p ∷ older))
        then (if not (is_bad (icon_of p older))
              || (is_nil older || not (alert_eq (diagnose p) (diagnose o)))
            then some (diagnose o)
            else none)
        else if is_bad (icon_of p older)
        then some recovered
        else none)
unfolding alert_of
observe-alert o p older =
    let m = watched (p ∷ older) in
    let i = icon_of o (p ∷ older) in
    ground (
      arith,
      watched-icon p older,
      watched-reason p older,
      alerted m o i (observe-icon o (p ∷ older)),
    )
