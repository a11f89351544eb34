-- ===== src/Batch/Clamp.antt =====
-- What an item may be after the clamp, against the wire's limits, and where a text is cut.
use dock_neighbor_hub.Shared.{
  ℕ, zero, suc, ◌+◌, ◌-◌, ◌≡◌, ◌≤◌, inl, inr, refl, true, false, ◌||◌, String, List, [], ◌∷◌, arith,
  Bool-cases, leb, ltb, ◌==◌, take, length, str_eq, str_eq_iff, is_empty, length-take, ==_iff,
  leb→le, subst, ap,
}
use Prim.Native.Char.{Char}
use dock_neighbor_hub.Batch.{
  Item, width, bytes, is_char_boundary, prefix_bytes, boundary_from, cut, set_param, clamp_params,
  clamp_item, max_params, max_value_len, max_name_len,
}

boundary_from-boundary : (s : String) (n : ℕ) → is_char_boundary s (boundary_from s n) ≡ true
unfolding boundary_from is_char_boundary
boundary_from-boundary String.[] zero = refl
boundary_from-boundary (String.◌∷◌ c s) zero = refl
boundary_from-boundary s (suc n) = elim (Bool-cases (is_char_boundary s (suc n))) [
  | inl e ↦ ground (arith, e)
  | inr e ↦ ground (arith, e, boundary_from-boundary s n)
]

boundary_from-le : (s : String) (n : ℕ) → boundary_from s n ≤ n
unfolding boundary_from
boundary_from-le s zero = omega arith
boundary_from-le s (suc n) = ground (arith, boundary_from-le s n)

-- Of the boundaries up to an index, the loop stops at the last.
boundary_from-last :
    (s : String) (n b : ℕ) → b ≤ n → is_char_boundary s b ≡ true → b ≤ boundary_from s n
unfolding boundary_from
boundary_from-last s zero b le h = omega (arith, le)
boundary_from-last s (suc n) b le h = elim (Bool-cases (b == suc n)) [
  | inl e ↦ ground arith
  | inr e ↦ ground (arith, boundary_from-last s n b)
]

width_bounds : (c : Char) → ((1 ≤ width c) × (width c ≤ 4))
width_bounds c = ground arith

boundary_tail :
    (c : Char) (s : String) (b : ℕ)
    → (b == 0) ≡ false
    → is_char_boundary (String.◌∷◌ c s) b ≡ true
    → (width c ≤ b) × (is_char_boundary s (b - width c) ≡ true)
unfolding is_char_boundary
boundary_tail c s b pos h = elim (Bool-cases (leb (width c) b)) [
  | inl le ↦ (leb→le (width c) b le, rw (pos, le) at h)
  | inr gt ↦ absurd (cc (rw (pos, gt) at h))
]

prefix_bytes-bytes :
    (s : String) (b : ℕ) → is_char_boundary s b ≡ true → bytes (prefix_bytes s b) ≡ b
unfolding prefix_bytes is_char_boundary
prefix_bytes-bytes String.[] b h = ground arith
prefix_bytes-bytes (String.◌∷◌ c s) b h = elim (Bool-cases (b == 0)) [
  | inl e ↦ rw e (omega (arith, (==_iff b 0).0 e))
  | inr e ↦
      let (le, tail) = boundary_tail c s b e h in
      rw e (omega (arith, le, prefix_bytes-bytes s (b - width c) tail))
]

-- Two texts in a row, character by character.
abbrev pub joined : String → String → String
joined String.[] r = r
joined (String.◌∷◌ c p) r = String.◌∷◌ c (joined p r)

prefix_bytes-prefix : (s : String) (b : ℕ) → (r : String) × (joined (prefix_bytes s b) r ≡ s)
unfolding prefix_bytes
prefix_bytes-prefix String.[] b = ("", refl)
prefix_bytes-prefix (String.◌∷◌ c s) b = elim (Bool-cases (b == 0)) [
  | inl e ↦ rw e (String.◌∷◌ c s, refl)
  | inr e ↦
      let (r, eq) = prefix_bytes-prefix s (b - width c) in rw e (r, ap (λ t. String.◌∷◌ c t) eq)
]

joined-boundary : (p r : String) → is_char_boundary (joined p r) (bytes p) ≡ true
unfolding is_char_boundary
joined-boundary String.[] String.[] = refl
joined-boundary String.[] (String.◌∷◌ c r) = refl
joined-boundary (String.◌∷◌ c p) r =
    let e : width c + bytes p - width c ≡ bytes p = omega arith in
    let (lo, hi) = width_bounds c in rw e (ground (arith, joined-boundary p r, lo))

joined-bytes : (p r : String) → bytes (joined p r) ≡ bytes p + bytes r
joined-bytes String.[] r = omega arith
joined-bytes (String.◌∷◌ c p) r = omega (arith, joined-bytes p r)

joined-empty : (p : String) → joined p "" ≡ p
joined-empty String.[] = refl
joined-empty (String.◌∷◌ c p) = ap (λ t. String.◌∷◌ c t) (joined-empty p)

-- A text is cut to the longest of its beginnings, of whole characters, that has at most so many bytes.
pub cut_longest :
    (s : String) (max : ℕ)
    → (bytes (cut s max) ≤ max)
      × ((r : String) × (joined (cut s max) r ≡ s))
      × ((p r : String) → joined p r ≡ s → bytes p ≤ max → bytes p ≤ bytes (cut s max))
unfolding cut
cut_longest s max = elim (Bool-cases (leb (bytes s) max)) [
  | inl whole ↦ rw whole (
    leb→le (bytes s) max whole,
    ("", joined-empty s),
    λ p r e fits. omega (arith, ap bytes e, joined-bytes p r),
  )
  | inr longer ↦
      let b = boundary_from s max in
      let size = prefix_bytes-bytes s b (boundary_from-boundary s max) in
      rw longer (
        omega (arith, size, boundary_from-le s max),
        prefix_bytes-prefix s b,
        λ p r e fits. omega (
          arith,
          size,
          boundary_from-last s max (bytes p) fits
              (subst (λ t. is_char_boundary t (bytes p) ≡ true) e (joined-boundary p r)),
        ),
      )
]

empty_bytes : (s : String) → is_empty s ≡ true → bytes s ≡ 0
empty_bytes String.[] h = refl
empty_bytes (String.◌∷◌ c s) h = absurd (cc h)

cut_nonempty : (v : String) → is_empty v ≡ false → is_empty (cut v max_value_len) ≡ false
cut_nonempty String.[] h = absurd (cc h)
cut_nonempty (String.◌∷◌ c v) h =
    let (lo, hi) = width_bounds c in
    let least =
      (cut_longest (String.◌∷◌ c v) max_value_len).2 (String.◌∷◌ c "") v refl (omega (arith, hi)) in
    elim (Bool-cases (is_empty (cut (String.◌∷◌ c v) max_value_len))) [
      | inl e ↦
          absurd (omega (arith, lo, least, empty_bytes (cut (String.◌∷◌ c v) max_value_len) e))
      | inr e ↦ e
    ]

-- A parameter that the wire takes.
abbrev pub IsLegal : String × String → Type 0
IsLegal (k, v) =
    (is_empty k ≡ false)
    × (bytes k ≤ max_name_len)
    × (is_empty v ≡ false)
    × (bytes v ≤ max_value_len)

abbrev pub AllLegal : List (String × String) → Type 0
AllLegal [] = Unit {0}
AllLegal (p ∷ ps) = IsLegal p × AllLegal ps

-- No parameter has the name, and no two have the same.
abbrev pub Unnamed : String → List (String × String) → Type 0
Unnamed j [] = Unit {0}
Unnamed j ((k, v) ∷ ps) = (str_eq k j ≡ false) × Unnamed j ps

abbrev pub Distinct : List (String × String) → Type 0
Distinct [] = Unit {0}
Distinct ((k, v) ∷ ps) = Unnamed k ps × Distinct ps

set_param-AllLegal :
    (k v : String) (out : List (String × String))
    → IsLegal (k, v)
    → AllLegal out
    → AllLegal (set_param k v out)
unfolding set_param
set_param-AllLegal k v [] l ls = (l, tt)
set_param-AllLegal k v ((j, w) ∷ out) l (m, ls) = elim (Bool-cases (str_eq j k)) [
  | inl e ↦ rw e ((m.0, m.1, l.2, l.3), ls)
  | inr e ↦ rw e (m, set_param-AllLegal k v out l ls)
]

set_param-Unnamed :
    (j k v : String) (out : List (String × String))
    → str_eq k j ≡ false
    → Unnamed j out
    → Unnamed j (set_param k v out)
unfolding set_param
set_param-Unnamed j k v [] n us = (n, tt)
set_param-Unnamed j k v ((i, w) ∷ out) n (u, us) = elim (Bool-cases (str_eq i k)) [
  | inl e ↦ rw e (u, us)
  | inr e ↦ rw e (u, set_param-Unnamed j k v out n us)
]

str_eq-flip : (a b : String) → str_eq a b ≡ false → str_eq b a ≡ false
str_eq-flip a b h = ground (arith, str_eq_iff a b, str_eq_iff b a)

set_param-Distinct :
    (k v : String) (out : List (String × String)) → Distinct out → Distinct (set_param k v out)
unfolding set_param
set_param-Distinct k v [] d = (tt, tt)
set_param-Distinct k v ((j, w) ∷ out) (u, d) = elim (Bool-cases (str_eq j k)) [
  | inl e ↦ rw e (u, d)
  | inr e ↦ rw e (set_param-Unnamed j k v out (str_eq-flip j k e) u, set_param-Distinct k v out d)
]

clamp_params-Legal :
    (ps out : List (String × String))
    → AllLegal out × Distinct out
    → AllLegal (clamp_params ps out) × Distinct (clamp_params ps out)
unfolding clamp_params
clamp_params-Legal [] out h = h
clamp_params-Legal ((k, v) ∷ ps) out (l, d) =
    elim (Bool-cases (is_empty k || ltb max_name_len (bytes k) || is_empty v)) [
      | inl e ↦ rw e (clamp_params-Legal ps out (l, d))
      | inr e ↦
          let cut_v = cut v max_value_len in
          let fits : (is_empty k ≡ false) × (bytes k ≤ max_name_len) × (is_empty v ≡ false) =
            ground arith in
          let legal : IsLegal (k, cut_v) =
            (fits.0, fits.1, cut_nonempty v fits.2, (cut_longest v max_value_len).0) in
          rw e (
            clamp_params-Legal ps (set_param k cut_v out)
              (set_param-AllLegal k cut_v out legal l, set_param-Distinct k cut_v out d))
    ]

take-AllLegal : (n : ℕ) (ps : List (String × String)) → AllLegal ps → AllLegal (take n ps)
take-AllLegal zero ps l = tt
take-AllLegal (suc n) [] l = tt
take-AllLegal (suc n) (p ∷ ps) (l, ls) = (l, take-AllLegal n ps ls)

take-Unnamed :
    (j : String) (n : ℕ) (ps : List (String × String)) → Unnamed j ps → Unnamed j (take n ps)
take-Unnamed j zero ps u = tt
take-Unnamed j (suc n) [] u = tt
take-Unnamed j (suc n) ((k, v) ∷ ps) (u, us) = (u, take-Unnamed j n ps us)

take-Distinct : (n : ℕ) (ps : List (String × String)) → Distinct ps → Distinct (take n ps)
take-Distinct zero ps d = tt
take-Distinct (suc n) [] d = tt
take-Distinct (suc n) ((k, v) ∷ ps) (u, d) = (take-Unnamed k n ps u, take-Distinct n ps d)

-- A clamped item keeps every limit of the wire: its names, its number of parameters and each of
-- them, no two parameters having one name; the count it comes with says how many
-- were left out as beyond 24 of those that remained when empty ones, ones with too long a name and
-- repeated names were gone.
pub clamp_item-Legal :
    (item : Item)
    → (bytes (clamp_item item).0.device ≤ max_name_len)
      × (bytes (clamp_item item).0.event ≤ max_name_len)
      × (length (clamp_item item).0.params ≤ max_params)
      × AllLegal (clamp_item item).0.params
      × Distinct (clamp_item item).0.params
      × (length (clamp_item item).0.params + (clamp_item item).1
          ≡ length (clamp_params item.params []))
unfolding clamp_item
clamp_item-Legal item =
    let out = clamp_params item.params [] in
    let (legal, distinct) = clamp_params-Legal item.params [] (tt, tt) in
    let size = length-take max_params out in
    (
      (cut_longest item.device max_name_len).0,
      (cut_longest item.event max_name_len).0,
      omega (arith, size),
      take-AllLegal max_params out legal,
      take-Distinct max_params out distinct,
      omega (arith, size),
    )
