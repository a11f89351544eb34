-- ===== src/Shared/Text.antt =====
-- Text. A `String` is compared whole by `str_eq`; where the code walks a text, the model walks the
-- list of its code points.
use Prim.Native.Nat.{ℕ, zero, suc, ◌+◌, ◌-◌, ◌/◌, ◌%◌}
use Prim.Native.Char.{Char, code}
use Prim.Native.String.{String}
pub use Prim.Native.String.{◌++◌ as ◌<>◌}
use mathlib.Core.Path.{◌≡◌, refl}
use mathlib.Core.Logic.{◌↔◌}
use mathlib.Core.Bool.{Bool, true, false, ◌&&◌, ◌||◌}
use mathlib.Core.List.{List, [], ◌∷◌}
use text.Mathlib.Text.{◌==◌ as native_eq}
use text.Mathlib.TextEquality.{eq_iff}
use dock_neighbor_hub.Shared.Tests.{leb, ltb, ◌==◌, if◌then◌else◌}

abbrev pub str_eq : String → String → Bool
str_eq a b = native_eq a b

pub str_eq_iff : (a b : String) → (str_eq a b ≡ true) ↔ (a ≡ b)
str_eq_iff a b = eq_iff a b

pub str_eq_self : (a : String) → str_eq a a ≡ true
str_eq_self a = (eq_iff a a).1 refl

abbrev pub codes : String → List ℕ
codes String.[] = []
codes (String.◌∷◌ c s) = code c ∷ codes s

-- `str::is_empty`.
abbrev pub is_empty : String → Bool
is_empty String.[] = true
is_empty (String.◌∷◌ c s) = false

-- Unicode's White_Space, which `str::trim` strips.
unfoldable pub is_whitespace : ℕ → Bool
is_whitespace c =
    (leb 9 c && leb c 13)
    || c == 32
    || c == 133
    || c == 160
    || c == 5760
    || (leb 8192 c && leb c 8202)
    || c == 8232
    || c == 8233
    || c == 8239
    || c == 8287
    || c == 12288

unfoldable pub trim_start : String → String
unfolding is_whitespace
trim_start String.[] = String.[]
trim_start (String.◌∷◌ c s) = if is_whitespace (code c) then trim_start s else String.◌∷◌ c s

unfoldable pub trim_end : String → String
unfolding is_whitespace
trim_end String.[] = String.[]
trim_end (String.◌∷◌ c s) =
    let rest = trim_end s in
    if is_whitespace (code c) && is_empty rest then String.[] else String.◌∷◌ c rest

-- `str::trim`.
unfoldable pub trim : String → String
unfolding trim_start trim_end
trim s = trim_end (trim_start s)

-- `chars().take(n).collect()`.
unfoldable pub take_chars : ℕ → String → String
take_chars zero s = String.[]
take_chars (suc n) String.[] = String.[]
take_chars (suc n) (String.◌∷◌ c s) = String.◌∷◌ c (take_chars n s)

digit : ℕ → String
digit d =
    if d == 0
    then "0"
    else if d == 1
    then "1"
    else if d == 2
    then "2"
    else if d == 3
    then "3"
    else if d == 4
    then "4"
    else if d == 5
    then "5"
    else if d == 6
    then "6"
    else if d == 7
    then "7"
    else if d == 8
    then "8"
    else "9"

decimal_onto : ℕ → ℕ → String → String
unfolding digit
decimal_onto zero n tail = tail
decimal_onto (suc fuel) n tail =
    let rest = decimal_onto fuel (n / 10) (digit (n % 10) <> tail) in
    if ltb n 10 then digit n <> tail else rest

-- `to_string()` of an unsigned number; a number has at most as many digits as it is large, plus one.
unfoldable pub decimal : ℕ → String
unfolding decimal_onto
decimal n = decimal_onto (suc n) n ""

decimal_1805 : decimal 1805 ≡ "1805"
unfolding decimal
decimal_1805 = refl

trim_spaces : trim "  a b " ≡ "a b"
unfolding trim
trim_spaces = refl

-- ASCII folding and the searches of `str`, on code points.
abbrev pub lower_code : ℕ → ℕ
lower_code c = if leb 65 c && leb c 90 then c + 32 else c

unfoldable pub to_ascii_lowercase : List ℕ → List ℕ
to_ascii_lowercase [] = []
to_ascii_lowercase (c ∷ s) = lower_code c ∷ to_ascii_lowercase s

unfoldable pub has_prefix : List ℕ → List ℕ → Bool
has_prefix s [] = true
has_prefix [] (d ∷ p) = false
has_prefix (c ∷ s) (d ∷ p) = c == d && has_prefix s p

unfoldable pub contains : List ℕ → List ℕ → Bool
unfolding has_prefix
contains [] p = has_prefix [] p
contains (c ∷ s) p = has_prefix (c ∷ s) p || contains s p

abbrev pub codes_eq : List ℕ → List ℕ → Bool
codes_eq [] [] = true
codes_eq [] (d ∷ t) = false
codes_eq (c ∷ s) [] = false
codes_eq (c ∷ s) (d ∷ t) = c == d && codes_eq s t

unfoldable pub has_suffix : List ℕ → List ℕ → Bool
has_suffix [] p = codes_eq [] p
has_suffix (c ∷ s) p = codes_eq (c ∷ s) p || has_suffix s p

abbrev letter_at : ℕ → String → Char → Char
letter_at n String.[] c = c
letter_at zero (String.◌∷◌ d s) c = d
letter_at (suc n) (String.◌∷◌ d s) c = letter_at n s c

abbrev lower_char : Char → Char
lower_char c =
    if leb 65 (code c) && leb (code c) 90
    then letter_at (code c - 65) "abcdefghijklmnopqrstuvwxyz" c
    else c

-- `str::to_ascii_lowercase`.
unfoldable pub lowercase : String → String
lowercase String.[] = String.[]
lowercase (String.◌∷◌ c s) = String.◌∷◌ (lower_char c) (lowercase s)

lowercase_mixed : lowercase "Read-Only é" ≡ "read-only é"
unfolding lowercase
lowercase_mixed = refl
