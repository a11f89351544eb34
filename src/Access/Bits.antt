-- ===== src/Access/Bits.antt =====
-- The comparison of keys in constant time, against equality.
use dock_neighbor_hub.Shared.{
  ℕ, zero, suc, ◌/◌, ◌%◌, ◌^◌, ◌<◌, ◌≡◌, ◌↔◌, ◌∙◌, ap, sym, refl, inl, inr, Bool, true, false, ◌||◌,
  Option, none, some, List, [], ◌∷◌, if◌then◌else◌, ◌==◌, ltb, all, keep, length, arith, Bool-cases,
  codes_eq,
}
use native.Mathlib.Nat.{pow-suc}
use dock_neighbor_hub.Access.{bitwise, xor, diff_of, ct_eq, MemberKey, scan, authorize, blank}

-- No bit set in the one or the other is no bit set in either; no bit of difference is no difference.
or_zero :
    (n a b : ℕ) → a < 2 ^ n → b < 2 ^ n → bitwise (λ p q. p || q) n a b ≡ 0 → (a ≡ 0) × (b ≡ 0)
unfolding bitwise
or_zero zero a b ha hb h = (omega (arith, ha), omega (arith, hb))
or_zero (suc n) a b ha hb h =
    let k = pow-suc 2 n in
    let rest : bitwise (λ p q. p || q) n (a / 2) (b / 2) ≡ 0 = ground (arith, h) in
    let ih = or_zero n (a / 2) (b / 2) (omega (arith, ha, k)) (omega (arith, hb, k)) rest in
    let i0 = ih.0 in
    let i1 = ih.1 in
    let lows : (a % 2 == 1 || b % 2 == 1) ≡ false = ground (arith, h) in
    (ground (arith, i0, lows), ground (arith, i1, lows))

or_self : (n : ℕ) → bitwise (λ p q. p || q) n 0 0 ≡ 0
unfolding bitwise
or_self zero = refl
or_self (suc n) = let ih = or_self n in omega (arith, ih)

xor_zero : (n a b : ℕ) → a < 2 ^ n → b < 2 ^ n → bitwise xor n a b ≡ 0 → a ≡ b
unfolding bitwise
xor_zero zero a b ha hb h = omega (arith, ha, hb)
xor_zero (suc n) a b ha hb h =
    let k = pow-suc 2 n in
    let rest : bitwise xor n (a / 2) (b / 2) ≡ 0 = ground (arith, h) in
    let ih = xor_zero n (a / 2) (b / 2) (omega (arith, ha, k)) (omega (arith, hb, k)) rest in
    let lows : xor (a % 2 == 1) (b % 2 == 1) ≡ false = ground (arith, h) in ground (arith, ih, lows)

xor_self : (n a : ℕ) → bitwise xor n a a ≡ 0
unfolding bitwise
xor_self zero a = refl
xor_self (suc n) a = let ih = xor_self n (a / 2) in ground (arith, ih)

bitwise_small : (op : Bool → Bool → Bool) (n a b : ℕ) → bitwise op n a b < 2 ^ n
unfolding bitwise
bitwise_small op zero a b = omega arith
bitwise_small op (suc n) a b =
    let k = pow-suc 2 n in let ih = bitwise_small op n (a / 2) (b / 2) in ground (arith, k, ih)

-- The bytes of a text: each is below 256.
abbrev pub IsBytes : List ℕ → Type 0
IsBytes s = all (λ c. ltb c 256) s ≡ true

diff_of-zero :
    (diff : ℕ) (a b : List ℕ)
    → diff < 256
    → IsBytes a
    → IsBytes b
    → length a ≡ length b
    → diff_of diff a b ≡ 0
    → (diff ≡ 0) × (a ≡ b)
unfolding diff_of
diff_of-zero diff [] [] d ba bb l h = (h, refl)
diff_of-zero diff [] (y ∷ b) d ba bb l h = ground (arith, l)
diff_of-zero diff (x ∷ a) [] d ba bb l h = ground (arith, l)
diff_of-zero diff (x ∷ a) (y ∷ b) d ba bb l h =
    let ta : IsBytes a = ground (arith, ba) in
    let tb : IsBytes b = ground (arith, bb) in
    let m = bitwise xor 8 x y in
    let small : m < 256 = bitwise_small xor 8 x y in
    let or8 = bitwise (λ p q. p || q) 8 diff m in
    let ih =
      diff_of-zero or8 a b (bitwise_small (λ p q. p || q) 8 diff m) ta tb (omega (arith, l)) h in
    let o = or_zero 8 diff m d small ih.0 in
    let e = xor_zero 8 x y (ground (arith, ba)) (ground (arith, bb)) o.1 in
    (o.0, ap (λ v. v ∷ a) e ∙ ap (λ v. y ∷ v) ih.1)

diff_of_self : (a : List ℕ) → diff_of 0 a a ≡ 0
unfolding diff_of
diff_of_self [] = refl
diff_of_self (x ∷ a) = rw (xor_self 8 x, or_self 8) (diff_of_self a)

-- On bytes the comparison in constant time holds exactly of equal texts.
pub ct_eq_iff : (a b : List ℕ) → IsBytes a → IsBytes b → (ct_eq a b ≡ true) ↔ (a ≡ b)
unfolding ct_eq
ct_eq_iff a b ba bb = (
  λ h. (diff_of-zero 0 a b (omega arith) ba bb (ground (arith, h)) (ground (arith, h))).1,
  λ e. let s = diff_of_self b in rw e (ground (arith, s)),
)

-- The last key of a list, if there is one.
abbrev pub last_found : Option MemberKey → List MemberKey → Option MemberKey
last_found found [] = found
last_found found (k ∷ ks) = last_found (some k) ks

abbrev pub KeysAreBytes : List MemberKey → Type 0
KeysAreBytes [] = Unit {0}
KeysAreBytes (k ∷ ks) = IsBytes k.key × KeysAreBytes ks

both : (a b : Bool) → (a ≡ true → b ≡ true) → (b ≡ true → a ≡ true) → a ≡ b
both true b f g = sym (f refl)
both false true f g = g refl
both false false f g = refl

scan_lem :
    (same : MemberKey → Bool) (keys : List MemberKey) (p : List ℕ) (found : Option MemberKey)
    → IsBytes p
    → KeysAreBytes keys
    → ((k : MemberKey) → (same k ≡ true) ↔ (k.key ≡ p))
    → scan keys p found ≡ last_found found (keep same keys)
unfolding scan
scan_lem same [] p found b bs s = refl
scan_lem same (k ∷ keys) p found b bs s =
    let c = ct_eq_iff k.key p bs.0 b in
    let e : ct_eq k.key p ≡ same k =
      both (ct_eq k.key p) (same k) (λ h. (s k).1 (c.0 h)) (λ h. c.1 ((s k).0 h)) in
    elim (Bool-cases (same k)) [
      | inl t ↦ rw (e, t) (scan_lem same keys p (some k) b bs.1 s)
      | inr n ↦ rw (e, n) (scan_lem same keys p found b bs.1 s)
    ]

codes_eq_self : (a : List ℕ) → codes_eq a a ≡ true
codes_eq_self [] = refl
codes_eq_self (x ∷ a) = ground (arith, codes_eq_self a)

codes_eq_sound : (a b : List ℕ) → codes_eq a b ≡ true → a ≡ b
codes_eq_sound [] [] h = refl
codes_eq_sound [] (y ∷ b) h = ground (arith, h)
codes_eq_sound (x ∷ a) [] h = ground (arith, h)
codes_eq_sound (x ∷ a) (y ∷ b) h =
    let e : x ≡ y = ground (arith, h) in
    ap (λ v. v ∷ a) e ∙ ap (λ v. y ∷ v) (codes_eq_sound a b (ground (arith, h)))

pub codes_eq_iff : (a b : List ℕ) → (codes_eq a b ≡ true) ↔ (a ≡ b)
codes_eq_iff a b = (codes_eq_sound a b, λ e. rw e (codes_eq_self b))

-- On sets and texts of bytes, a key speaks for the last member of the set that holds it; a key that
-- nobody holds, and the empty key whatever the set holds, speaks for nobody.
pub authorize-last :
    (keys : List MemberKey) (p : List ℕ)
    → IsBytes p
    → KeysAreBytes keys
    → authorize keys p
      ≡ (if blank p then none else last_found none (keep (λ k. codes_eq k.key p) keys))
unfolding authorize
authorize-last keys p b bs =
    rw (scan_lem (λ k. codes_eq k.key p) keys p none b bs (λ k. codes_eq_iff k.key p)) refl
