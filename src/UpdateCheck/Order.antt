-- ===== src/UpdateCheck/Order.antt =====
-- The order of versions.
use dock_neighbor_hub.Shared.{ℕ, ◌≡◌, refl, true, false, Option, none, some, List, arith}
use dock_neighbor_hub.UpdateCheck.{Version, later, both_later, is_newer, parse_version}

later_trans : (a b c : Version) → later a b ≡ true → later b c ≡ true → later a c ≡ true
unfolding later
later_trans a b c h k = ground (arith, h, k)

later_asym : (a b : Version) → later a b ≡ true → later b a ≡ false
unfolding later
later_asym a b h = ground (arith, h)

both_later_trans :
    (a b c : Option Version) → both_later a b ≡ true → both_later b c ≡ true → both_later a c ≡ true
unfolding both_later
both_later_trans none b c h k = ground (arith, h)
both_later_trans (some a) none c h k = ground (arith, h)
both_later_trans (some a) (some b) none h k = ground (arith, k)
both_later_trans (some a) (some b) (some c) h k = later_trans a b c h k

both_later_asym : (a b : Option Version) → both_later a b ≡ true → both_later b a ≡ false
unfolding both_later
both_later_asym none b h = ground (arith, h)
both_later_asym (some a) none h = refl
both_later_asym (some a) (some b) h = later_asym a b h

-- Being newer passes from text to text.
is_newer_trans : (a b c : List ℕ) → is_newer a b ≡ true → is_newer b c ≡ true → is_newer a c ≡ true
unfolding is_newer
is_newer_trans a b c h k =
    both_later_trans (parse_version a) (parse_version b) (parse_version c) h k

-- Of two texts at most one is newer than the other.
is_newer_asym : (a b : List ℕ) → is_newer a b ≡ true → is_newer b a ≡ false
unfolding is_newer
is_newer_asym a b h = both_later_asym (parse_version a) (parse_version b) h
