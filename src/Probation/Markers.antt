-- ===== src/Probation/Markers.antt =====
-- The marker file of a probation: what is written reads back.
use dock_neighbor_hub.Shared.{
  ℕ, ◌≡◌, ◌↔◌, ◌∙◌, ap, refl, Bool, true, false, none, some, List, [], ◌∷◌, ◌++◌, ◌==◌,
  is_whitespace, arith, append_assoc, append-nil, codes, codes_eq,
}
use dock_neighbor_hub.Probation.{
  Probation, show_i64, write_marker, parse_marker, parse_i64, is_nil, trim_codes, strip_cr, lines,
  lines_onto, split_once, Read, read_entry, read_lines, confirm, roll_back, stale, probation_step,
  reached,
}
use dock_neighbor_hub.Probation.Digits.{
  IsPlain, no_space, IsI64, show_i64-IsPlain, trim_codes-plain, parse_i64-show_i64,
}

break_is_space : (c : ℕ) → no_space c ≡ true → (c == 10) ≡ false
unfolding is_whitespace
break_is_space c h = ground (arith, h)

return_is_space : (c : ℕ) → no_space c ≡ true → (c == 13) ≡ false
unfolding is_whitespace
return_is_space c h = ground (arith, h)

strip_cr-plain : (s : List ℕ) → IsPlain s → strip_cr s ≡ s
unfolding strip_cr
strip_cr-plain [] h = refl
strip_cr-plain (c ∷ s) h =
    let p : no_space c ≡ true = ground (arith, h) in
    let t : IsPlain s = ground (arith, h) in rw (return_is_space c p, strip_cr-plain s t) refl

lines_onto-line :
    (line w s : List ℕ)
    → IsPlain w
    → lines_onto line (w ++ 10 ∷ s) ≡ strip_cr (line ++ w) ∷ lines_onto [] s
unfolding lines_onto
lines_onto-line line [] s h = rw (append-nil line) refl
lines_onto-line line (c ∷ w) s h =
    let p : no_space c ≡ true = ground (arith, h) in
    let t : IsPlain w = ground (arith, h) in
    rw (break_is_space c p) (
      lines_onto-line (line ++ c ∷ []) w s t
      ∙ ap (λ l. strip_cr l ∷ lines_onto [] s) (append_assoc line (c ∷ []) w))

lines_line : (w s : List ℕ) → IsPlain w → lines_onto [] (w ++ 10 ∷ s) ≡ w ∷ lines_onto [] s
lines_line w s h = lines_onto-line [] w s h ∙ ap (λ l. l ∷ lines_onto [] s) (strip_cr-plain w h)

keyed-IsPlain :
    (v : List ℕ)
    → IsPlain v
    → IsPlain (codes "FROM=" ++ v) × IsPlain (codes "TO=" ++ v) × IsPlain (codes "DEADLINE=" ++ v)
unfolding is_whitespace
keyed-IsPlain v h = (h, h, h)

split_once-keys :
    (v : List ℕ)
    → (split_once (codes "FROM=" ++ v) ≡ some (codes "FROM", v))
      × (split_once (codes "TO=" ++ v) ≡ some (codes "TO", v))
      × (split_once (codes "DEADLINE=" ++ v) ≡ some (codes "DEADLINE", v))
unfolding split_once
split_once-keys v = (refl, refl, refl)

key_trims :
    (trim_codes (codes "FROM") ≡ codes "FROM")
    × (trim_codes (codes "TO") ≡ codes "TO")
    × (trim_codes (codes "DEADLINE") ≡ codes "DEADLINE")
unfolding is_whitespace
key_trims = (
  trim_codes-plain (codes "FROM") refl,
  trim_codes-plain (codes "TO") refl,
  trim_codes-plain (codes "DEADLINE") refl,
)

read_entry-keys :
    (v : List ℕ) (m : Read)
    → (read_entry (codes "FROM") v m ≡ record m { from = some (trim_codes v) })
      × (read_entry (codes "TO") v m ≡ record m { to = some (trim_codes v) })
      × (read_entry (codes "DEADLINE") v m ≡ record m { deadline = parse_i64 (trim_codes v) })
unfolding read_entry
read_entry-keys v m = (rw key_trims.0 refl, rw key_trims.1 refl, rw key_trims.2 refl)

-- The three lines of a marker.
write_marker-lines :
    (p : Probation)
    → IsPlain p.from
    → IsPlain p.to
    → lines (write_marker p)
      ≡ (codes "FROM=" ++ p.from)
        ∷ (codes "TO=" ++ p.to)
        ∷ (codes "DEADLINE=" ++ show_i64 p.deadline_ms)
        ∷ []
unfolding lines write_marker
write_marker-lines p f t =
    let d = show_i64 p.deadline_ms in
    let third = codes "DEADLINE=" ++ (d ++ 10 ∷ []) in
    let second = codes "TO=" ++ (p.to ++ 10 ∷ third) in
    lines_line (codes "FROM=" ++ p.from) second (keyed-IsPlain p.from f).0
    ∙ ap (λ l. (codes "FROM=" ++ p.from) ∷ l)
        (lines_line (codes "TO=" ++ p.to) third (keyed-IsPlain p.to t).1
          ∙ ap (λ l. (codes "TO=" ++ p.to) ∷ l)
              (lines_line (codes "DEADLINE=" ++ d) []
                (keyed-IsPlain d (show_i64-IsPlain p.deadline_ms)).2))

read_lines-line :
    (l k v : List ℕ) (ls : List (List ℕ)) (m n : Read)
    → split_once l ≡ some (k, v)
    → read_entry k v m ≡ n
    → read_lines (l ∷ ls) m ≡ read_lines ls n
unfolding read_lines
read_lines-line l k v ls m n e h = rw (e, h) refl

abbrev unread : Read
unread = record { from = none; to = none; deadline = none }

write_marker-reads :
    (p : Probation)
    → IsPlain p.from
    → IsPlain p.to
    → IsI64 p.deadline_ms
    → read_lines (lines (write_marker p)) unread
      ≡ some (record { from = some p.from; to = some p.to; deadline = some p.deadline_ms })
unfolding read_lines
write_marker-reads p f t b =
    let d = show_i64 p.deadline_ms in
    let m : Read = record { from = some (trim_codes p.from); to = none; deadline = none } in
    let n : Read = record m { to = some (trim_codes p.to) } in
    let o : Read = record n { deadline = parse_i64 (trim_codes d) } in
    let second = codes "TO=" ++ p.to in
    let third = codes "DEADLINE=" ++ d in
    ap (λ l. read_lines l unread) (write_marker-lines p f t)
    ∙ read_lines-line (codes "FROM=" ++ p.from) (codes "FROM") p.from (second ∷ third ∷ []) unread m
        (split_once-keys p.from).0 (read_entry-keys p.from unread).0
    ∙ read_lines-line second (codes "TO") p.to (third ∷ []) m n (split_once-keys p.to).1
        (read_entry-keys p.to m).1
    ∙ read_lines-line third (codes "DEADLINE") d [] n o (split_once-keys d).2
        (read_entry-keys d n).2
    ∙ rw
        (
          trim_codes-plain p.from f,
          trim_codes-plain p.to t,
          trim_codes-plain d (show_i64-IsPlain p.deadline_ms),
          parse_i64-show_i64 p.deadline_ms b,
        )
        refl

-- A marker with two different versions, neither empty nor with white space in it, and a deadline of
-- 64 bits reads back as it was written.
pub parse_marker-write_marker :
    (p : Probation)
    → IsPlain p.from
    → IsPlain p.to
    → is_nil p.from ≡ false
    → is_nil p.to ≡ false
    → codes_eq p.from p.to ≡ false
    → IsI64 p.deadline_ms
    → parse_marker (write_marker p) ≡ some p
unfolding parse_marker
parse_marker-write_marker p f t nf nt ne b = rw (write_marker-reads p f t b, nf, nt, ne) refl

-- A release is rolled back only while it runs, has not reported and its deadline has passed; it is
-- kept only once it has reported. Whatever a look decides is one of these or leaves it on watch, and
-- any other running version ends the probation.
pub probation_step_iff :
    (p : Probation) (running : List ℕ) (ok : Bool) (now : ℕ)
    → (let s = probation_step p running ok now in
        ((s ≡ roll_back)
          ↔ ((codes_eq running p.to ≡ true) × (ok ≡ false) × (reached p.deadline_ms now ≡ true)))
        × ((s ≡ confirm) ↔ ((codes_eq running p.to ≡ true) × (ok ≡ true)))
        × ((s ≡ stale) ↔ (codes_eq running p.to ≡ false)))
unfolding probation_step
probation_step_iff p running ok now = ground arith
