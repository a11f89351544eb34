-- ===== src/Probation.antt =====
-- daemon/src/update_gate.rs: the probation of an update that was applied, the marker file it is kept
-- in, and the list of versions that were rolled back. A text is the list of its code points.
pub mod Digits
pub mod Markers
use dock_neighbor_hub.Shared.{
  ℕ, zero, suc, ◌+◌, ◌-◌, ◌*◌, ◌/◌, ◌%◌, Bool, true, false, not, ◌&&◌, ◌||◌, Option, none, some,
  List, [], ◌∷◌, ◌++◌, String, if◌then◌else◌, ltb, leb, ◌==◌, any, all, codes, codes_eq,
  is_whitespace,
}
use dock_neighbor_hub.LinktapRuntime.{and_then}

-- `i64`.
pub data ℤ : Type 0 where
  pos negsuc : ℕ → ℤ

abbrev pub i64_limit : ℕ
i64_limit = 9223372036854775808

pub record Probation : Type 0 where
  pub from : List ℕ
  pub to : List ℕ
  pub deadline_ms : ℤ

pub data ProbationStep : Type 0 where
  confirm keep_watching roll_back stale : ProbationStep

abbrev pub probation_ms : ℕ
probation_ms = 10 * 60 * 1000

abbrev pub reached : ℤ → ℕ → Bool
reached (pos d) now_ms = leb d now_ms
reached (negsuc d) now_ms = true

unfoldable pub probation_step : Probation → List ℕ → Bool → ℕ → ProbationStep
probation_step p running_version reported_ok now_ms =
    if codes_eq running_version p.to
    then (if reported_ok
        then confirm
        else if reached p.deadline_ms now_ms
        then roll_back
        else keep_watching)
    else stale

-- The decimal digits of a number, as `to_string` writes them; `fuel` is at least their count.
unfoldable pub digits : ℕ → ℕ → List ℕ
digits zero n = []
digits (suc fuel) n =
    let more = digits fuel (n / 10) in
    if ltb n 10 then (48 + n) ∷ [] else more ++ ((48 + n % 10) ∷ [])

unfoldable pub show_i64 : ℤ → List ℕ
unfolding digits
show_i64 (pos n) = digits (suc n) n
show_i64 (negsuc n) = 45 ∷ digits (suc (suc n)) (suc n)

unfoldable pub write_marker : Probation → List ℕ
unfolding show_i64
write_marker p =
    codes "FROM="
    ++ (p.from
        ++ (10
            ∷ (codes "TO="
                ++ (p.to ++ (10 ∷ (codes "DEADLINE=" ++ (show_i64 p.deadline_ms ++ (10 ∷ []))))))))

-- `str::trim`, `str::lines` and `str::split_once`, on code points.
unfoldable pub trim_start_codes : List ℕ → List ℕ
trim_start_codes [] = []
trim_start_codes (c ∷ s) = if is_whitespace c then trim_start_codes s else c ∷ s

abbrev pub is_nil : List ℕ → Bool
is_nil [] = true
is_nil (c ∷ s) = false

unfoldable pub trim_end_codes : List ℕ → List ℕ
trim_end_codes [] = []
trim_end_codes (c ∷ s) =
    let rest = trim_end_codes s in if is_whitespace c && is_nil rest then [] else c ∷ rest

unfoldable pub trim_codes : List ℕ → List ℕ
trim_codes s = trim_end_codes (trim_start_codes s)

unfoldable pub strip_cr : List ℕ → List ℕ
strip_cr [] = []
strip_cr (c ∷ s) = if c == 13 && is_nil s then [] else c ∷ strip_cr s

unfoldable pub lines_onto : List ℕ → List ℕ → List (List ℕ)
unfolding strip_cr
lines_onto line [] = if is_nil line then [] else line ∷ []
lines_onto line (c ∷ s) =
    let ended = lines_onto [] s in
    let on = lines_onto (line ++ (c ∷ [])) s in if c == 10 then strip_cr line ∷ ended else on

unfoldable pub lines : List ℕ → List (List ℕ)
unfolding lines_onto
lines s = lines_onto [] s

-- At the first `=`.
unfoldable pub split_once : List ℕ → Option (List ℕ × List ℕ)
split_once [] = none
split_once (c ∷ s) =
    let rest = split_once s in
    if c == 61 then some ([], s) else elim rest [ none ↦ none | some r ↦ some (c ∷ r.0, r.1) ]

-- `parse::<i64>`: an optional sign, at least one digit, and no overflow.
unfoldable pub digits_value : ℕ → List ℕ → Option ℕ
digits_value acc [] = some acc
digits_value acc (c ∷ s) =
    let rest = digits_value (acc * 10 + (c - 48)) s in if leb 48 c && leb c 57 then rest else none

unfoldable pub unsigned : List ℕ → Option ℕ
unfolding digits_value
unsigned [] = none
unsigned (c ∷ s) = digits_value 0 (c ∷ s)

abbrev pub below : ℕ → Option ℕ → Option ℤ
below limit none = none
below limit (some n) = if ltb n limit then some (pos n) else none

abbrev pub negated : Option ℕ → Option ℤ
negated none = none
negated (some zero) = some (pos 0)
negated (some (suc n)) = if ltb n i64_limit then some (negsuc n) else none

unfoldable pub parse_i64 : List ℕ → Option ℤ
unfolding unsigned
parse_i64 [] = none
parse_i64 (c ∷ s) =
    if c == 45
    then negated (unsigned s)
    else if c == 43
    then below i64_limit (unsigned s)
    else below i64_limit (unsigned (c ∷ s))

-- What the loop of `parse_marker` has read so far.
pub record Read : Type 0 where
  pub from : Option (List ℕ)
  pub to : Option (List ℕ)
  pub deadline : Option ℤ

unfoldable pub read_entry : List ℕ → List ℕ → Read → Read
unfolding trim_codes parse_i64
read_entry k v m =
    if codes_eq (trim_codes k) (codes "FROM")
    then record m { from = some (trim_codes v) }
    else if codes_eq (trim_codes k) (codes "TO")
    then record m { to = some (trim_codes v) }
    else if codes_eq (trim_codes k) (codes "DEADLINE")
    then record m { deadline = parse_i64 (trim_codes v) }
    else m

abbrev pub read_split : Option (List ℕ × List ℕ) → Read → Option Read
read_split none m = none
read_split (some e) m = some (read_entry e.0 e.1 m)

unfoldable pub read_lines : List (List ℕ) → Read → Option Read
unfolding split_once read_entry
read_lines [] m = some m
read_lines (l ∷ ls) m = and_then (read_split (split_once l) m) (read_lines ls)

abbrev pub settled : Option (List ℕ) → Option (List ℕ) → Option ℤ → Option Probation
settled (some from) (some to) (some deadline_ms) =
    if is_nil from || (is_nil to || codes_eq from to)
    then none
    else some (record { from = from; to = to; deadline_ms = deadline_ms })
settled none to deadline = none
settled (some from) none deadline = none
settled (some from) (some to) none = none

unfoldable pub parse_marker : List ℕ → Option Probation
unfolding lines read_lines
parse_marker text =
    and_then (read_lines (lines text) (record { from = none; to = none; deadline = none }))
      (λ m. settled m.from m.to m.deadline)

abbrev pub opens_with : ℕ → List ℕ → Bool
opens_with d [] = false
opens_with d (c ∷ s) = c == d

unfoldable pub skipped : List ℕ → List ℕ → Bool
unfolding lines trim_codes
skipped list version =
    any
      (λ l. let t = trim_codes l in not (is_nil t) && (not (opens_with 35 t) && codes_eq t version))
      (lines list)

unfoldable pub with_skipped : List ℕ → List ℕ → Option (List ℕ)
unfolding skipped trim_end_codes
with_skipped list version =
    let out = trim_end_codes list in
    if skipped list version
    then none
    else some ((if is_nil out then [] else out ++ (10 ∷ [])) ++ (version ++ (10 ∷ [])))
