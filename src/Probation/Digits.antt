-- ===== src/Probation/Digits.antt =====
-- Decimal digits read back, and texts without white space.
use dock_neighbor_hub.Shared.{
  ℕ, zero, suc, ◌+◌, ◌-◌, ◌*◌, ◌/◌, ◌%◌, ◌<◌, ◌≤◌, ◌≡◌, ◌∙◌, ap, refl, inl, inr, Bool, true, false,
  not, ◌&&◌, some, List, [], ◌∷◌, ◌++◌, ltb, leb, all, is_whitespace, arith, Bool-cases,
}
use dock_neighbor_hub.Probation.{
  ℤ, pos, negsuc, digits, show_i64, digits_value, unsigned, parse_i64, is_nil, trim_start_codes,
  trim_end_codes, trim_codes, i64_limit,
}

digits_value-append :
    (acc : ℕ) (xs : List ℕ) (c v : ℕ)
    → digits_value acc xs ≡ some v
    → 48 ≤ c
    → c ≤ 57
    → digits_value acc (xs ++ c ∷ []) ≡ some (v * 10 + (c - 48))
unfolding digits_value
digits_value-append acc [] c v h lo hi = ground (arith, h, lo, hi)
digits_value-append acc (x ∷ xs) c v h lo hi = elim (Bool-cases (leb 48 x && leb x 57)) [
  | inl e ↦
      let r : digits_value (acc * 10 + (x - 48)) xs ≡ some v = ground (arith, h, e) in
      rw e (digits_value-append (acc * 10 + (x - 48)) xs c v r lo hi)
  | inr e ↦ ground (arith, h, e)
]

-- A number reads back from its digits.
pub digits_value-digits : (fuel n : ℕ) → n < fuel → digits_value 0 (digits fuel n) ≡ some n
unfolding digits digits_value
digits_value-digits zero n h = ground (arith, h)
digits_value-digits (suc fuel) n h = elim (Bool-cases (ltb n 10)) [
  | inl e ↦
      let small : n < 10 = ground (arith, e) in
      let back : 0 * 10 + (48 + n - 48) ≡ n = omega arith in
      rw e (
        digits_value-append 0 [] (48 + n) 0 refl (omega arith) (omega (arith, small))
        ∙ ap some back)
  | inr e ↦
      let big : 10 ≤ n = ground (arith, e) in
      let back : (n / 10) * 10 + (48 + n % 10 - 48) ≡ n = omega arith in
      let ih = digits_value-digits fuel (n / 10) (omega (arith, h, big)) in
      rw e (
        digits_value-append 0 (digits fuel (n / 10)) (48 + n % 10) (n / 10) ih (omega arith)
          (omega arith)
        ∙ ap some back)
]

-- A text without white space.
abbrev pub no_space : ℕ → Bool
no_space c = not (is_whitespace c)

abbrev pub IsPlain : List ℕ → Type 0
IsPlain s = all no_space s ≡ true

all-append : (p : ℕ → Bool) (xs ys : List ℕ) → all p (xs ++ ys) ≡ (all p xs && all p ys)
all-append p [] ys = refl
all-append p (x ∷ xs) ys = ground (arith, all-append p xs ys)

digit_no_space : (d : ℕ) → d < 10 → no_space (48 + d) ≡ true
unfolding is_whitespace
digit_no_space d h = ground (arith, h)

digits-IsPlain : (fuel n : ℕ) → IsPlain (digits fuel n)
unfolding digits
digits-IsPlain zero n = refl
digits-IsPlain (suc fuel) n = elim (Bool-cases (ltb n 10)) [
  | inl e ↦ let d = digit_no_space n (ground (arith, e)) in rw e (ground (arith, d))
  | inr e ↦
      let d = digit_no_space (n % 10) (omega arith) in
      let ih = digits-IsPlain fuel (n / 10) in
      rw (e, all-append no_space (digits fuel (n / 10)) ((48 + n % 10) ∷ []))
        (ground (arith, d, ih))
]

pub show_i64-IsPlain : (z : ℤ) → IsPlain (show_i64 z)
unfolding show_i64 is_whitespace
show_i64-IsPlain (pos n) = digits-IsPlain (suc n) n
show_i64-IsPlain (negsuc n) = digits-IsPlain (suc (suc n)) (suc n)

trim_start-plain : (s : List ℕ) → IsPlain s → trim_start_codes s ≡ s
unfolding trim_start_codes
trim_start-plain [] h = refl
trim_start-plain (c ∷ s) h = ground (arith, h)

trim_end-plain : (s : List ℕ) → IsPlain s → trim_end_codes s ≡ s
unfolding trim_end_codes
trim_end-plain [] h = refl
trim_end-plain (c ∷ s) h =
    let t : IsPlain s = ground (arith, h) in let ih = trim_end-plain s t in ground (arith, h, ih)

pub trim_codes-plain : (s : List ℕ) → IsPlain s → trim_codes s ≡ s
unfolding trim_codes
trim_codes-plain s h = rw (trim_start-plain s h) (trim_end-plain s h)

append_some : (xs : List ℕ) (c : ℕ) → is_nil (xs ++ c ∷ []) ≡ false
append_some [] c = refl
append_some (x ∷ xs) c = refl

digits_some : (fuel n : ℕ) → is_nil (digits (suc fuel) n) ≡ false
unfolding digits
digits_some fuel n = let a = append_some (digits fuel (n / 10)) (48 + n % 10) in ground (arith, a)

unsigned_lem :
    (xs : List ℕ) (n : ℕ) → is_nil xs ≡ false → digits_value 0 xs ≡ some n → unsigned xs ≡ some n
unfolding unsigned
unsigned_lem [] n e h = ground (arith, e)
unsigned_lem (c ∷ s) n e h = h

parse_positive :
    (xs : List ℕ) (n : ℕ)
    → is_nil xs ≡ false
    → digits_value 0 xs ≡ some n
    → n < i64_limit
    → parse_i64 xs ≡ some (pos n)
unfolding parse_i64 unsigned digits_value
parse_positive [] n e h b = ground (arith, e)
parse_positive (c ∷ s) n e h b = ground (arith, h, b)

parse_negative :
    (xs : List ℕ) (n : ℕ)
    → unsigned xs ≡ some (suc n)
    → n < i64_limit
    → parse_i64 (45 ∷ xs) ≡ some (negsuc n)
unfolding parse_i64
parse_negative xs n h b = ground (arith, h, b)

-- The numbers of 64 bits with a sign.
abbrev pub IsI64 : ℤ → Type 0
IsI64 (pos n) = n < i64_limit
IsI64 (negsuc n) = n < i64_limit

pub parse_i64-show_i64 : (z : ℤ) → IsI64 z → parse_i64 (show_i64 z) ≡ some z
unfolding show_i64
parse_i64-show_i64 (pos n) b =
    parse_positive (digits (suc n) n) n (digits_some n n)
      (digits_value-digits (suc n) n (omega arith)) b
parse_i64-show_i64 (negsuc n) b =
    parse_negative (digits (suc (suc n)) (suc n)) n
      (unsigned_lem (digits (suc (suc n)) (suc n)) (suc n) (digits_some (suc n) (suc n))
        (digits_value-digits (suc (suc n)) (suc n) (omega arith)))
      b
