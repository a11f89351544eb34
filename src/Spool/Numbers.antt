-- ===== src/Spool/Numbers.antt =====
-- The posts of the hub's own reports over a run of moves: what they hold and how they are numbered.
use dock_neighbor_hub.Shared.{
  ℕ, zero, suc, ◌+◌, ◌-◌, ◌%◌, ◌≡◌, refl, ap, sym, subst, min, ◌∙◌, ◌⊎◌, inl, inr, Bool, Option,
  none, some, String, List, [], ◌∷◌, ◌++◌, map, arith, length, drop, take, Sublist, sublist_refl,
  sublist_trans, sublist_append, sublist-cons_self, nil-sublist, append_assoc, map-append,
  map_sublist, append-nil, take-append-drop, length-append,
}
use dock_neighbor_hub.Linktap.{Report}
use dock_neighbor_hub.Batch.{Item, max_items, from_report, for_the_wire}
use dock_neighbor_hub.Spool.{
  Post, ReportSpool, SpoolMove, spooled, posted, answered, unregistered, PostOutcome, delivered,
  transient, refused_post, wire_items, next_post, answer_post, spool_move, max_spool_reports,
}
use dock_neighbor_hub.Spool.Shedding.{push_bounded-newest}

-- `Rt::new`: nothing waits and the first number is 1.
abbrev pub fresh_spool : ReportSpool
fresh_spool = record { pending = []; inflight = none; posting = none; batch_seq = 1 }

-- The state after a run, newest move first.
pub spool_after : List SpoolMove → ReportSpool
spool_after [] = fresh_spool
spool_after (m ∷ ms) = spool_move m (spool_after ms)

abbrev pub fresh_post : Bool → Option Post → Option Post → List Report → ℕ → List Post
fresh_post l (some p) i q n = []
fresh_post l none (some p) q n = []
fresh_post l none none [] n = []
fresh_post l none none (r ∷ q) n =
    (n, wire_items l (take (min (length (r ∷ q)) max_items) (r ∷ q))) ∷ []

abbrev pub formed_by : SpoolMove → ReportSpool → List Post
formed_by (posted l) s = fresh_post l s.posting s.inflight s.pending s.batch_seq
formed_by (spooled r) s = []
formed_by (answered o) s = []
formed_by unregistered s = []

-- The posts that were formed, oldest first: a kept post that goes again is not formed again.
pub posts : List SpoolMove → List Post
posts [] = []
posts (m ∷ ms) = posts ms ++ formed_by m (spool_after ms)

-- A report as the cloud knows it again: its device and its event.
abbrev pub tag_of : Report → String × String
tag_of r = (r.device, r.event)

abbrev pub tag_in : Item → String × String
tag_in i = (i.device, i.event)

abbrev pub tags_in : List Post → List (String × String)
tags_in [] = []
tags_in (p ∷ ps) = map tag_in p.1 ++ tags_in ps

abbrev pub spooled_with : SpoolMove → List (String × String)
spooled_with (spooled r) = tag_of r ∷ []
spooled_with (posted l) = []
spooled_with (answered o) = []
spooled_with unregistered = []

pub spooled_tags : List SpoolMove → List (String × String)
spooled_tags [] = []
spooled_tags (m ∷ ms) = spooled_tags ms ++ spooled_with m

wire_tag : (r : Report) (l : Bool) → tag_in (for_the_wire (from_report r) l) ≡ tag_of r
unfolding for_the_wire from_report
wire_tag r l = ground arith

wire_items-tags : (l : Bool) (rs : List Report) → map tag_in (wire_items l rs) ≡ map tag_of rs
unfolding wire_items
wire_items-tags l [] = refl
wire_items-tags l (r ∷ rs) = rw (wire_tag r l, wire_items-tags l rs) refl

tags_in-append : (ps qs : List Post) → tags_in (ps ++ qs) ≡ tags_in ps ++ tags_in qs
tags_in-append [] qs = refl
tags_in-append (p ∷ ps) qs =
    rw (tags_in-append ps qs) (sym (append_assoc (map tag_in p.1) (tags_in ps) (tags_in qs)))

module _ {ℓ} {A : Type ℓ} where
  drop_sub : (n : ℕ) (xs : List A) → Sublist (drop n xs) xs
  drop_sub zero xs = sublist_refl xs
  drop_sub (suc n) [] = sublist_refl []
  drop_sub (suc n) (x ∷ xs) = sublist_trans (drop_sub n xs) (sublist-cons_self x xs)

-- What one move makes of the reports that wait.
post_keeps :
    (l : Bool) (p i : Option Post) (q : List Report) (s : ReportSpool)
    → s.pending ≡ q
    → tags_in (fresh_post l p i q s.batch_seq) ++ map tag_of (next_post l p i q s).pending
      ≡ map tag_of q
unfolding next_post
post_keeps l (some p) i q s e = ap (map tag_of) e
post_keeps l none (some p) q s e = ap (map tag_of) e
post_keeps l none none [] s e = ap (map tag_of) e
post_keeps l none none (r ∷ q) s e =
    let n = min (length (r ∷ q)) max_items in
    let all_of = r ∷ q in
    ap (λ t. t ++ map tag_of (drop n all_of))
      (append-nil (map tag_in (wire_items l (take n all_of))) ∙ wire_items-tags l (take n all_of))
    ∙ sym (map-append tag_of (take n all_of) (drop n all_of))
    ∙ ap (map tag_of) (take-append-drop n all_of)

answer_post-pending :
    (o : PostOutcome) (p : Option Post) (s : ReportSpool) → (answer_post o p s).pending ≡ s.pending
unfolding answer_post
answer_post-pending o p s = ground arith

spool_move_keeps :
    (m : SpoolMove) (s : ReportSpool)
    → Sublist
        (tags_in (formed_by m s) ++ map tag_of (spool_move m s).pending)
        (map tag_of s.pending ++ spooled_with m)
unfolding spool_move
spool_move_keeps (spooled r) s =
    let all_of = s.pending ++ r ∷ [] in
    let n = length s.pending + 1 - max_spool_reports in
    rw (push_bounded-newest s.pending r max_spool_reports) (
      subst (λ l. Sublist (map tag_of (drop n all_of)) l) (map-append tag_of s.pending (r ∷ []))
        (map_sublist tag_of (drop n all_of) all_of (drop_sub n all_of)))
spool_move_keeps (posted l) s =
    rw (append-nil (map tag_of s.pending), post_keeps l s.posting s.inflight s.pending s refl)
      (sublist_refl (map tag_of s.pending))
spool_move_keeps (answered o) s =
    rw (append-nil (map tag_of s.pending), answer_post-pending o s.posting s)
      (sublist_refl (map tag_of s.pending))
spool_move_keeps unregistered s = nil-sublist (map tag_of s.pending ++ [])

-- Over any run of reports spooled, posts tried and answered, the items of the posts that were formed
-- followed by the reports that wait are, by device and event, the reports as they were spooled, less
-- some: no report is in two posts, and none overtakes another.
pub posts-in_order :
    (ms : List SpoolMove)
    → Sublist (tags_in (posts ms) ++ map tag_of (spool_after ms).pending) (spooled_tags ms)
unfolding spool_after posts spooled_tags
posts-in_order [] = sublist_refl []
posts-in_order (m ∷ ms) =
    let s = spool_after ms in
    let t = tags_in (posts ms) in
    let u = tags_in (formed_by m s) in
    let left = map tag_of (spool_move m s).pending in
    let one = sublist_append (sublist_refl t) (spool_move_keeps m s) in
    let past = sublist_append (posts-in_order ms) (sublist_refl (spooled_with m)) in
    subst (λ l. Sublist l (spooled_tags ms ++ spooled_with m))
      (sym
        (ap (λ l. l ++ left) (tags_in-append (posts ms) (formed_by m s)) ∙ append_assoc t u left))
      (sublist_trans one (
        subst (λ l. Sublist l (spooled_tags ms ++ spooled_with m))
          (append_assoc t (map tag_of s.pending) (spooled_with m)) past))

-- The first `n` numbers, from 1, of a counter of 64 bits.
abbrev pub numbers : ℕ → List ℕ
numbers zero = []
numbers (suc n) = numbers n ++ ((n + 1) % 18446744073709551616 ∷ [])

abbrev number_of : Post → ℕ
number_of p = p.0

-- The post under way, or else the one kept for a retry.
abbrev pub current : Option Post → Option Post → List Post
current (some p) i = p ∷ []
current none (some p) = p ∷ []
current none none = []

abbrev pub EndsIn : List Post → List Post → Type 0
EndsIn whole [] = Unit {0}
EndsIn whole (p ∷ ps) = (earlier : List Post) × (whole ≡ earlier ++ p ∷ [])

abbrev pub Numbered : List Post → ℕ → Option Post → Option Post → Type 0
Numbered ps seq p i =
    (map number_of ps ≡ numbers (length ps))
    × (seq ≡ (length ps + 1) % 18446744073709551616)
    × EndsIn ps (current p i)
    × ((p ≡ none) ⊎ (i ≡ none))

answer-Numbered :
    (o : PostOutcome) (p i : Option Post) (ps : List Post) (s : ReportSpool)
    → s.posting ≡ p
    → s.inflight ≡ i
    → Numbered ps s.batch_seq p i
    → (let t = answer_post o p s in Numbered ps t.batch_seq t.posting t.inflight)
unfolding answer_post
answer-Numbered delivered p none ps s ep ei h = rw ei (h.0, h.1, tt, inl refl)
answer-Numbered delivered none (some y) ps s ep ei h = rw ei (h.0, h.1, h.2, inl refl)
answer-Numbered delivered (some x) (some y) ps s ep ei h = let k = h.3 in ground (arith, k)
answer-Numbered (refused_post why) p none ps s ep ei h = rw ei (h.0, h.1, tt, inl refl)
answer-Numbered (refused_post why) none (some y) ps s ep ei h = rw ei (h.0, h.1, h.2, inl refl)
answer-Numbered (refused_post why) (some x) (some y) ps s ep ei h = let k = h.3 in ground (arith, k)
answer-Numbered (transient why) none i ps s ep ei h = rw (ep, ei) h
answer-Numbered (transient why) (some x) i ps s ep ei h = (h.0, h.1, h.2, inl refl)

next-Numbered :
    (l : Bool) (p i : Option Post) (q : List Report) (ps : List Post) (s : ReportSpool)
    → s.posting ≡ p
    → s.inflight ≡ i
    → Numbered ps s.batch_seq p i
    → (let t = next_post l p i q s in
        Numbered (ps ++ fresh_post l p i q s.batch_seq) t.batch_seq t.posting t.inflight)
unfolding next_post
next-Numbered l (some x) i q ps s ep ei h = rw (append-nil ps, ep, ei) h
next-Numbered l none (some y) q ps s ep ei h = rw (append-nil ps) (h.0, h.1, h.2, inr refl)
next-Numbered l none none [] ps s ep ei h = rw (append-nil ps, ep, ei) h
next-Numbered l none none (r ∷ q) ps s ep ei h =
    let p : Post = (s.batch_seq, wire_items l (take (min (length (r ∷ q)) max_items) (r ∷ q))) in
    let n : length (ps ++ p ∷ []) ≡ suc (length ps) = length-append ps (p ∷ []) ∙ omega arith in
    let seq : s.batch_seq ≡ (length ps + 1) % 18446744073709551616 = h.1 in
    (
      map-append number_of ps (p ∷ [])
          ∙ ap (λ v. v ++ s.batch_seq ∷ []) h.0
          ∙ ap (λ v. numbers (length ps) ++ v ∷ []) seq
          ∙ ap numbers (sym n),
      omega (arith, n, seq),
      (ps, refl),
      inr ei,
    )

move-Numbered :
    (m : SpoolMove) (ps : List Post) (s : ReportSpool)
    → Numbered ps s.batch_seq s.posting s.inflight
    → (let t = spool_move m s in Numbered (ps ++ formed_by m s) t.batch_seq t.posting t.inflight)
unfolding spool_move
move-Numbered (spooled r) ps s h = rw (append-nil ps) h
move-Numbered (posted l) ps s h = next-Numbered l s.posting s.inflight s.pending ps s refl refl h
move-Numbered (answered o) ps s h =
    rw (append-nil ps) (answer-Numbered o s.posting s.inflight ps s refl refl h)
move-Numbered unregistered ps s h =
    rw (append-nil ps) (answer-Numbered delivered s.posting s.inflight ps s refl refl h)

-- The posts formed in any run are numbered 1, 2, 3 and so on, and the next number follows theirs;
-- the post that is under way or kept for a retry is the last one formed, so a retry sends the same
-- items under the same number. The numbers wrap at 2 ^ 64.
pub posts-Numbered :
    (ms : List SpoolMove)
    → (let s = spool_after ms in Numbered (posts ms) s.batch_seq s.posting s.inflight)
unfolding spool_after posts
posts-Numbered [] = (refl, refl, tt, inl refl)
posts-Numbered (m ∷ ms) = move-Numbered m (posts ms) (spool_after ms) (posts-Numbered ms)
