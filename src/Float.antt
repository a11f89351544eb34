-- ===== src/Float.antt =====
-- The `f64` that the program computes with: its operations, and the documented behaviour of IEEE
-- arithmetic that the proofs rely on. Neither is defined here; a client takes both as arguments.
use dock_neighbor_hub.Shared.{ℕ, ◌<◌, ◌≡◌, Bool, true, false}

-- `lit m k` is the literal m / 10 ^ k.
pub record Float64 (V : Type 0) : Type 0 where
  pub lit : ℕ → ℕ → V
  pub lt_f : V → V → Bool
  pub le_f : V → V → Bool
  pub is_finite : V → Bool
  pub add_f : V → V → V
  pub sub_f : V → V → V
  pub mul_f : V → V → V
  pub div_f : V → V → V
  pub max_f : V → V → V

-- Order, and the rounding that never passes an exact bound. Whole numbers below 2 ^ 53 are `f64`s as
-- they stand.
pub record Float64Laws (V : Type 0) (f : Float64 V) : Type 0 where
  pub le_refl_finite : (a : V) → f.is_finite a ≡ true → f.le_f a a ≡ true
  pub le_trans_f : (a b c : V) → f.le_f a b ≡ true → f.le_f b c ≡ true → f.le_f a c ≡ true
  pub lit_finite : (m : ℕ) → m < 9007199254740992 → f.is_finite (f.lit m 0) ≡ true
  pub le_of_lt : (a b : V) → f.lt_f a b ≡ true → f.le_f a b ≡ true
  pub mul_positive :
      (a b : V)
      → f.is_finite a ≡ true
      → f.lt_f (f.lit 0 0) a ≡ true
      → f.le_f (f.lit 0 0) b ≡ true
      → f.le_f (f.lit 0 0) (f.mul_f a b) ≡ true
  pub div_positive :
      (m n : ℕ)
      → m < 9007199254740992
      → 0 < n
      → n < 9007199254740992
      → f.le_f (f.lit 0 0) (f.div_f (f.lit m 0) (f.lit n 0)) ≡ true
  pub sub_le :
      (a b : V) → f.is_finite a ≡ true → f.le_f (f.lit 0 0) b ≡ true → f.le_f (f.sub_f a b) a ≡ true
  pub max_le : (a b c : V) → f.le_f a c ≡ true → f.le_f b c ≡ true → f.le_f (f.max_f a b) c ≡ true
  pub lt_of_not_le :
      (a b : V)
      → f.is_finite a ≡ true
      → f.is_finite b ≡ true
      → f.le_f a b ≡ false
      → f.lt_f b a ≡ true
