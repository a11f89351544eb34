-- ===== src/Spool/Shedding.antt =====
-- What leaves a full queue.
use dock_neighbor_hub.Shared.{
  ℕ, suc, ◌+◌, ◌-◌, ◌≤◌, ◌≡◌, refl, ap, sym, subst, max, ◌∙◌, ◌⊎◌, inl, inr, true, false, Option,
  none, some, List, [], ◌∷◌, ◌++◌, arith, length, drop, leb, ltb, Bool-cases, Option-cases,
  length-append, Sublist, sublist_refl, sublist_append, sublist-cons_self,
}
use dock_neighbor_hub.Spool.{
  QueuedShelly, shelly_is_alarm, remove_reading, shed_one, enqueue_shelly, shed_oldest,
  push_bounded,
}

module _ {ℓ} {A : Type ℓ} where
  shed_oldest-drop :
      (cap : ℕ) (q : List A) → shed_oldest cap q ≡ (drop (length q - cap) q, length q - cap)
  unfolding shed_oldest
  shed_oldest-drop cap [] = ground arith
  shed_oldest-drop cap (x ∷ q) =
      let ih = shed_oldest-drop cap q in
      elim (Bool-cases (ltb cap (suc (length q)))) [
        | inl e ↦
            let n : suc (length q) - cap ≡ suc (length q - cap) = ground (arith, e) in
            let m : length q - cap + 1 ≡ suc (length q - cap) = omega arith in rw (e, n, ih, m) refl
        | inr e ↦ let n : suc (length q) - cap ≡ 0 = ground (arith, e) in rw (e, n) refl
      ]

-- The reports of a queue are all alarms.
abbrev pub AllAlarms : List QueuedShelly → Type 0
AllAlarms [] = Unit {0}
AllAlarms (x ∷ q) = (shelly_is_alarm x.call.event ≡ true) × AllAlarms q

remove_reading-none : (q : List QueuedShelly) → remove_reading q ≡ none → AllAlarms q
unfolding remove_reading
remove_reading-none [] h = ground arith
remove_reading-none (x ∷ q) h = elim (Bool-cases (shelly_is_alarm x.call.event)) [
  | inl e ↦ elim (Option-cases (remove_reading q)) [
    | inl n ↦ (e, remove_reading-none q n)
    | inr p ↦ let k = p.1 in ground (arith, h, e, k)
  ]
  | inr e ↦ ground (arith, h, e)
]

-- A report taken out of a queue, with what stood before it and after it.
pub record Taken (q left : List QueuedShelly) (x : QueuedShelly) : Type 0 where
  pub before : List QueuedShelly
  pub behind : List QueuedShelly
  pub whole : q ≡ before ++ x ∷ behind
  pub rest : left ≡ before ++ behind
  pub spared : AllAlarms before

remove_reading-some :
    (q : List QueuedShelly) (r : List QueuedShelly × QueuedShelly)
    → remove_reading q ≡ some r
    → Taken q r.0 r.1 × (shelly_is_alarm r.1.call.event ≡ false)
unfolding remove_reading
remove_reading-some [] r h = ground (arith, h)
remove_reading-some (y ∷ q) r h = elim (Bool-cases (shelly_is_alarm y.call.event)) [
  | inl e ↦ elim (Option-cases (remove_reading q)) [
    | inl n ↦ ground (arith, h, e, n)
    | inr p ↦
        let k = p.1 in
        let ih = remove_reading-some q p.0 k in
        let t = ih.0 in
        let e0 : r.0 ≡ y ∷ p.0.0 = ground (arith, h, e, k) in
        let e1 : r.1 ≡ p.0.1 = ground (arith, h, e, k) in
        (
          record {
            before = y ∷ t.before;
            behind = t.behind;
            whole = ap (λ l. y ∷ l) t.whole ∙ ap (λ v. y ∷ (t.before ++ v ∷ t.behind)) (sym e1);
            rest = e0 ∙ ap (λ l. y ∷ l) t.rest;
            spared = (e, t.spared);
          },
          ap (λ v. shelly_is_alarm v.call.event) e1 ∙ ih.1,
        )
  ]
  | inr e ↦
      let e0 : r.0 ≡ q = ground (arith, h, e) in
      let e1 : r.1 ≡ y = ground (arith, h, e) in
      (
        record {
          before = [];
          behind = q;
          whole = ap (λ v. v ∷ q) (sym e1);
          rest = e0;
          spared = tt;
        },
        ap (λ v. shelly_is_alarm v.call.event) e1 ∙ e,
      )
]

shed_one_lem :
    (q : List QueuedShelly) (o : Option (List QueuedShelly × QueuedShelly)) (d : QueuedShelly)
    → remove_reading q ≡ o
    → (shed_one q o).1 ≡ some d
    → Taken q (shed_one q o).0 d × ((shelly_is_alarm d.call.event ≡ false) ⊎ AllAlarms q)
unfolding shed_one
shed_one_lem q (some r) d e h =
    let n : r.1 ≡ d = ground (arith, h) in
    let t = remove_reading-some q r e in
    subst (λ v. Taken q r.0 v × ((shelly_is_alarm v.call.event ≡ false) ⊎ AllAlarms q)) n
      (t.0, inl t.1)
shed_one_lem [] none d e h = ground (arith, h)
shed_one_lem (x ∷ q) none d e h =
    let n : x ≡ d = ground (arith, h) in
    (
      record { before = []; behind = q; whole = ap (λ v. v ∷ q) n; rest = refl; spared = tt },
      inr (remove_reading-none (x ∷ q) e),
    )

-- What a full queue drops is the oldest sensor reading, so everything that stood before it was an
-- alarm, and an alarm only where the whole queue is alarms; all else stays, in its order.
pub enqueue_shelly-sheds :
    (q : List QueuedShelly) (item : QueuedShelly) (cap : ℕ) (d : QueuedShelly)
    → (enqueue_shelly q item cap).1 ≡ some d
    → Taken (q ++ item ∷ []) (enqueue_shelly q item cap).0 d
      × ((shelly_is_alarm d.call.event ≡ false) ⊎ AllAlarms (q ++ item ∷ []))
unfolding enqueue_shelly
enqueue_shelly-sheds q item cap d h =
    let all_of = q ++ item ∷ [] in
    elim (Bool-cases (leb (length all_of) cap)) [
      | inl e ↦ ground (arith, h, e)
      | inr e ↦ rw e (shed_one_lem all_of (remove_reading all_of) d refl (ground (arith, h, e)))
    ]

enqueue_shelly-keeps :
    (q : List QueuedShelly) (item : QueuedShelly) (cap : ℕ)
    → (enqueue_shelly q item cap).1 ≡ none
    → (enqueue_shelly q item cap).0 ≡ q ++ item ∷ []
unfolding enqueue_shelly shed_one
enqueue_shelly-keeps q item cap h =
    let all_of = q ++ item ∷ [] in
    elim (Bool-cases (leb (length all_of) cap)) [
      | inl e ↦ ground (arith, e)
      | inr e ↦ elim (Option-cases (remove_reading all_of)) [
        | inl n ↦ ground (arith, h, e, n)
        | inr p ↦ let k = p.1 in ground (arith, h, e, k)
      ]
    ]

-- The queue after one more report is what it was with the report behind it, less what was shed.
pub enqueue_shelly-sub :
    (q : List QueuedShelly) (item : QueuedShelly) (cap : ℕ)
    → Sublist (enqueue_shelly q item cap).0 (q ++ item ∷ [])
enqueue_shelly-sub q item cap = elim (Option-cases (enqueue_shelly q item cap).1) [
  | inl n ↦ rw (enqueue_shelly-keeps q item cap n) (sublist_refl (q ++ item ∷ []))
  | inr p ↦
      let t = (enqueue_shelly-sheds q item cap p.0 p.1).0 in
      rw (t.rest, t.whole) (sublist_append (sublist_refl t.before) (sublist-cons_self p.0 t.behind))
]

Taken-length :
    (q left : List QueuedShelly) (x : QueuedShelly) → Taken q left x → length q ≡ suc (length left)
Taken-length q left x t =
    let a = length-append t.before (x ∷ t.behind) in
    let b = length-append t.before t.behind in rw (t.whole, t.rest) (omega (arith, a, b))

shed_one-length :
    (q : List QueuedShelly) (o : Option (List QueuedShelly × QueuedShelly))
    → remove_reading q ≡ o
    → length (shed_one q o).0 ≡ length q - 1
unfolding shed_one
shed_one-length q (some r) e =
    let t = Taken-length q r.0 r.1 (remove_reading-some q r e).0 in omega (arith, t)
shed_one-length [] none e = omega arith
shed_one-length (x ∷ q) none e = omega arith

pub enqueue_shelly-bounded :
    (q : List QueuedShelly) (item : QueuedShelly) (cap : ℕ)
    → length (enqueue_shelly q item cap).0 ≤ max cap (length q)
unfolding enqueue_shelly
enqueue_shelly-bounded q item cap =
    let all_of = q ++ item ∷ [] in
    let n = shed_one-length all_of (remove_reading all_of) refl in
    let m = length-append q (item ∷ []) in ground (arith, n, m)

module _ {ℓ} {A : Type ℓ} where
  -- Appending to a bounded queue keeps exactly its newest entries, as many as the bound allows, and
  -- counts the ones that went.
  pub push_bounded-newest :
      (q : List A) (item : A) (cap : ℕ)
      → push_bounded q item cap ≡ (drop (length q + 1 - cap) (q ++ item ∷ []), length q + 1 - cap)
  unfolding push_bounded
  push_bounded-newest q item cap =
      let n : length (q ++ item ∷ []) ≡ length q + 1 = length-append q (item ∷ []) in
      rw (shed_oldest-drop cap (q ++ item ∷ []), n) refl
