-- ===== src/Batch/Posts.antt =====
-- The posts that a payload is split into.
use dock_neighbor_hub.Shared.{
  ℕ, zero, suc, ◌≡◌, ◌≤◌, ◌<◌, inl, inr, refl, Bool, true, false, Option, none, some, String, List,
  [], ◌∷◌, ◌++◌, arith, Bool-cases, Option-cases, drop, length, str_eq, str_eq_iff, any,
  length-take, length-drop, take-append-drop, ap, ◌∙◌, sym,
}
use mathlib.Core.List.{Perm, Permᴰ}
use mathlib.Core.List.Permᴰ
use dock_neighbor_hub.Batch.{
  Item, put_first, pull_event, status_first, chunks, split, max_items, hub_status_event,
}

-- The posts one after another.
abbrev pub joined_posts {ℓ} : {A : Type ℓ} → List (List A) → List A
joined_posts [] = []
joined_posts (p ∷ ps) = p ++ joined_posts ps

abbrev pub AllShort {ℓ} : {A : Type ℓ} → ℕ → List (List A) → Type 0
AllShort n [] = Unit {0}
AllShort n (p ∷ ps) = (length p ≤ n) × AllShort n ps

chunks-AllShort : {A : Type 0} (fuel n : ℕ) (xs : List A) → AllShort n (chunks fuel n xs)
unfolding chunks
chunks-AllShort zero n xs = tt
chunks-AllShort (suc fuel) n [] = tt
chunks-AllShort (suc fuel) n (x ∷ xs) =
    (omega (arith, length-take n (x ∷ xs)), chunks-AllShort fuel n (drop n (x ∷ xs)))

-- The number of items is fuel enough.
pub chunks-joined :
    {A : Type 0} (fuel n : ℕ) (xs : List A)
    → 0 < n
    → length xs ≤ fuel
    → joined_posts (chunks fuel n xs) ≡ xs
unfolding chunks
chunks-joined zero n [] pos le = refl
chunks-joined zero n (x ∷ xs) pos le = absurd (omega (arith, le))
chunks-joined (suc fuel) n [] pos le = refl
chunks-joined (suc fuel) n (x ∷ xs) pos le =
    let shorter =
      chunks-joined fuel n (drop n (x ∷ xs)) pos (omega (arith, le, pos, length-drop n (x ∷ xs))) in
    rw shorter (take-append-drop n (x ∷ xs))

pull_event-perm :
    (event : String) (items : List Item) (hs : Item)
    → (pull_event event items).0 ≡ some hs
    → Permᴰ items (hs ∷ (pull_event event items).1) × (hs.event ≡ event)
unfolding pull_event
pull_event-perm event [] hs h = absurd (cc h)
pull_event-perm event (it ∷ items) hs h = elim (Bool-cases (str_eq it.event event)) [
  | inl e ↦
      let same : it ≡ hs = ground arith in
      rw e (
        Permᴰ.cons same (Permᴰ.refl items),
        ap (λ i. i.event) (sym same) ∙ (str_eq_iff it.event event).0 e,
      )
  | inr e ↦
      let found : (pull_event event items).0 ≡ some hs = rw e at h in
      let (perm, named) = pull_event-perm event items hs found in
      rw e (Permᴰ.trans (Permᴰ.cons refl perm) (Permᴰ.swap refl refl), named)
]

pull_event-none :
    (event : String) (items : List Item)
    → (pull_event event items).0 ≡ none
    → any (λ it. str_eq it.event event) items ≡ false
unfolding pull_event
pull_event-none event [] h = refl
pull_event-none event (it ∷ items) h = ground (arith, pull_event-none event items)

-- The first item of the first post.
abbrev pub opens_with : String → List Item → Bool
opens_with event [] = false
opens_with event (it ∷ items) = str_eq it.event event

status_first-Perm : (items : List Item) → Perm items (status_first items)
unfolding status_first
status_first-Perm items = elim (Option-cases (pull_event hub_status_event items).0) [
  | inl e ↦ rw (status_first, e) (∣ Permᴰ.refl items ∣₁)
  | inr (hs, e) ↦ rw (status_first, e) (∣ (pull_event-perm hub_status_event items hs e).0 ∣₁)
]

status_first-opens :
    (items : List Item)
    → any (λ it. str_eq it.event hub_status_event) items ≡ true
    → opens_with hub_status_event (status_first items) ≡ true
unfolding status_first
status_first-opens items some_status = elim (Option-cases (pull_event hub_status_event items).0) [
  | inl e ↦ absurd (ground (arith, pull_event-none hub_status_event items e))
  | inr (hs, e) ↦
      rw (status_first, e)
        ((str_eq_iff hs.event hub_status_event).1 (pull_event-perm hub_status_event items hs e).1)
]

put_first-nonempty :
    (o : Option Item) (rest items : List Item)
    → 0 < length items
    → 0 < length (put_first o rest items)
put_first-nonempty none rest items h = h
put_first-nonempty (some hs) rest items h = omega arith

chunks-nonempty :
    {A : Type 0} (fuel n : ℕ) (xs : List A)
    → 0 < fuel
    → 0 < length xs
    → 0 < length (chunks fuel n xs)
unfolding chunks
chunks-nonempty zero n xs pos some_item = absurd (omega (arith, pos))
chunks-nonempty (suc fuel) n [] pos some_item = absurd (omega (arith, some_item))
chunks-nonempty (suc fuel) n (x ∷ xs) pos some_item = omega arith

-- A payload goes out in one post or more, of at most fifty items each, which together hold exactly its
-- items; a status item, if it has one, opens the first post.
pub split_lem :
    (items : List Item)
    → (0 < length (split items))
      × AllShort max_items (split items)
      × Perm items (joined_posts (split items))
      × (any (λ it. str_eq it.event hub_status_event) items ≡ true
          → opens_with hub_status_event (joined_posts (split items)) ≡ true)
unfolding split status_first
split_lem [] = (omega arith, (omega arith, tt), (∣ Permᴰ.refl [] ∣₁), λ h. absurd (cc h))
split_lem (it ∷ items) =
    let ordered = status_first (it ∷ items) in
    let pulled = pull_event hub_status_event (it ∷ items) in
    let some_item : 0 < length ordered =
      put_first-nonempty pulled.0 pulled.1 (it ∷ items) (omega arith) in
    let whole = chunks-joined (length ordered) max_items ordered (omega arith) (omega arith) in
    (
      chunks-nonempty (length ordered) max_items ordered some_item some_item,
      chunks-AllShort (length ordered) max_items ordered,
      rw whole (status_first-Perm (it ∷ items)),
      rw whole (status_first-opens (it ∷ items)),
    )
