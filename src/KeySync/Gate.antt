-- ===== src/KeySync/Gate.antt =====
-- The fetches that the gate lets through.
use dock_neighbor_hub.Shared.{
  ℕ, ◌+◌, ◌-◌, ◌*◌, ◌≤◌, ◌<◌, ◌≡◌, ◌≢◌, ◌⊎◌, min, true, not, ◌&&◌, List, [], ◌∷◌, Option, none,
  some, String, arith, str_eq_iff, str_eq_self, if◌then◌else◌, ltb, pow2-pos, saturating_suc32,
  Option-cases, Bool-cases, inl, inr,
}
use dock_neighbor_hub.KeySync.{
  KeySync, signature, valid_sig, valid_only, due, note_reply_sig, note_door_miss, applied_set,
  failed, door_miss_gap_ms, safety_refresh_secs, holds_sig,
}

-- While nothing else makes a fetch due, a reply makes one due exactly when it carries a well-formed
-- signature that is not the one held; a reply with none, or with a malformed one, changes nothing.
pub note_reply_sig-due :
    (k : KeySync) (sig : Option String) (now : ℕ)
    → k.want ≡ none
    → let k' = note_reply_sig k sig now in
      (k'.want ≡ (elim sig [
        | none ↦ none
        | some s ↦ if valid_sig s && not (holds_sig k.applied s) then some signature else none
      ]))
      × (k'.applied ≡ k.applied)
      × (k'.retry_at_ms ≡ k.retry_at_ms)
unfolding note_reply_sig valid_only
note_reply_sig-due k none now h = ground arith
note_reply_sig-due k (some s) now h = ground arith

-- A well-formed signature that is not the one held costs one fetch that lands: after it, where the
-- fetch brought no ETag, the same signature on a reply makes nothing due for a day from that reply,
-- whatever the hub would have computed for the set itself.
pub applied_set-settles :
    (k : KeySync) (s computed : String) (heard fetched again now : ℕ)
    → valid_sig s ≡ true
    → k.applied ≢ some s
    → now < again + safety_refresh_secs * 1000
    → let asked = note_reply_sig k (some s) heard in
      let held = (applied_set asked none computed fetched).0 in
      due (note_reply_sig held (some s) again) now ≡ none
unfolding note_reply_sig valid_only applied_set due
applied_set-settles k s computed heard fetched again now v n h = elim (Option-cases k.applied) [
  | inl e ↦ ground (arith, str_eq_self s)
  | inr (a, e) ↦ ground (arith, str_eq_self s, str_eq_iff a s)
]

-- A failed fetch forgets nothing: the set held and the reason to fetch stay, and nothing is due
-- until the backoff has passed, which is between a minute and half an hour; then what was due is.
pub failed-keeps :
    (k : KeySync) (failed_at now : ℕ)
    → let (k', wait) = failed k failed_at in
      (k'.applied ≡ k.applied)
      × (60 ≤ wait)
      × (wait ≤ 1800)
      × (due k' now ≡ (
          if ltb now (failed_at + wait * 1000)
          then none
          else due (record k { retry_at_ms = 0 }) now))
unfolding failed due
failed-keeps k failed_at now = ground (arith, pow2-pos (min (saturating_suc32 k.fails - 1) 20))

-- The calls of the LAN door that ring the sync, by their times.
pub rings : KeySync → List ℕ → List ℕ
rings k [] = []
rings k (now ∷ later) =
    let (k', rang) = note_door_miss k now in
    let rest = rings k' later in if rang then now ∷ rest else rest

abbrev pub Spaced : ℕ → List ℕ → Type 0
Spaced last [] = Unit {0}
Spaced last (t ∷ ts) = ((last ≡ 0) ⊎ (last + door_miss_gap_ms ≤ t)) × Spaced t ts

-- However often unknown keys meet the door, it rings the sync at most once a minute.
pub rings-Spaced : (k : KeySync) (times : List ℕ) → Spaced k.last_door_ms (rings k times)
unfolding rings note_door_miss
rings-Spaced k [] = tt
rings-Spaced k (now ∷ later) = elim (Bool-cases (note_door_miss k now).1) [
  | inl e ↦ rw e (ground (arith, rings-Spaced (note_door_miss k now).0 later))
  | inr e ↦ rw e (ground (arith, rings-Spaced (note_door_miss k now).0 later))
]
