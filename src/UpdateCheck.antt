-- ===== src/UpdateCheck.antt =====
-- daemon/src/update_check.rs: reading a version and comparing two. A text is the list of its code
-- points. Fetching the release page is not modelled: its address is an argument.
pub mod Order
use dock_neighbor_hub.Shared.{
  ℕ, ◌+◌, ◌^◌, Bool, true, false, not, ◌&&◌, ◌||◌, Option, none, some, List, [], ◌∷◌, if◌then◌else◌,
  ltb, ◌==◌, any, codes, codes_eq, has_prefix,
}
use dock_neighbor_hub.LinktapRuntime.{and_then}
use dock_neighbor_hub.Probation.{unsigned, trim_codes}

-- Major, minor and patch, each a `u32`.
abbrev pub Version : Type 0
Version = ℕ × ℕ × ℕ

-- What follows the last code point that `p` accepts, or the whole text.
unfoldable pub after_last : (ℕ → Bool) → List ℕ → List ℕ
after_last p [] = []
after_last p (c ∷ s) =
    let rest = after_last p s in if any p s then rest else if p c then s else c ∷ s

-- What stands before the first code point that `p` accepts, or the whole text.
unfoldable pub before_first : (ℕ → Bool) → List ℕ → List ℕ
before_first p [] = []
before_first p (c ∷ s) = let rest = before_first p s in if p c then [] else c ∷ rest

abbrev pub onto : ℕ → List (List ℕ) → List (List ℕ)
onto c [] = (c ∷ []) ∷ []
onto c (w ∷ ws) = (c ∷ w) ∷ ws

unfoldable pub split_on : ℕ → List ℕ → List (List ℕ)
split_on d [] = [] ∷ []
split_on d (c ∷ s) = let rest = split_on d s in if c == d then [] ∷ rest else onto c rest

abbrev pub fits_u32 : Option ℕ → Option ℕ
fits_u32 none = none
fits_u32 (some n) = if ltb n (2 ^ 32) then some n else none

-- `parse::<u32>`: an optional `+`, at least one digit, and no overflow.
unfoldable pub parse_u32 : List ℕ → Option ℕ
unfolding unsigned
parse_u32 [] = none
parse_u32 (c ∷ s) = fits_u32 (if c == 43 then unsigned s else unsigned (c ∷ s))

unfoldable pub parts : List (List ℕ) → Option Version
unfolding parse_u32
parts [] = none
parts (a ∷ []) = none
parts (a ∷ b ∷ []) = none
parts (a ∷ b ∷ c ∷ []) = and_then (parse_u32 a) (λ major.
    and_then (parse_u32 b) (λ minor. and_then (parse_u32 c) (λ patch. some (major, minor, patch))))
parts (a ∷ b ∷ c ∷ d ∷ more) = none

unfoldable pub parse_version : List ℕ → Option Version
unfolding trim_codes after_last before_first split_on parts
parse_version s =
    let v = after_last (λ c. c == 45 || c == 118) (trim_codes s) in
    parts (split_on 46 (before_first (λ c. c == 43 || c == 45) v))

-- The order of tuples: the first place that differs decides.
unfoldable pub later : Version → Version → Bool
later l c = ltb c.0 l.0 || (l.0 == c.0 && (ltb c.1 l.1 || (l.1 == c.1 && ltb c.2 l.2)))

unfoldable pub both_later : Option Version → Option Version → Bool
unfolding later
both_later (some l) (some c) = later l c
both_later (some l) none = false
both_later none c = false

unfoldable pub is_newer : List ℕ → List ℕ → Bool
unfolding parse_version both_later
is_newer latest current = both_later (parse_version latest) (parse_version current)

unfoldable pub newer_than : List ℕ → List ℕ → Option (List ℕ)
unfolding is_newer
newer_than latest current = if is_newer latest current then some latest else none
