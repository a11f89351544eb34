-- ===== src/Checkin/Landed.antt =====
-- What a check-in leaves when some of its posts are lost.
use dock_neighbor_hub.Shared.{
  ℕ, suc, ◌+◌, ◌≡◌, ◌∙◌, ap, sym, refl, inl, inr, Bool, true, false, String, List, [], ◌∷◌, ◌++◌,
  arith, if◌then◌else◌, Bool-cases, length, take, append_assoc, append-nil, ◌==◌,
}
use dock_neighbor_hub.Batch.{Item, chunks, max_items}
use dock_neighbor_hub.Batch.Posts.{joined_posts, chunks-joined}
use dock_neighbor_hub.Spool.{PostOutcome}
use dock_neighbor_hub.Checkin.{Checkin, is_delivered, marks_of, send_chunks, posts_of, checkin_once}

module _ {M : Type 0} where
  -- How many posts are delivered before the first that is not, from number `i` on.
  pub delivered_from : (ℕ → PostOutcome) → ℕ → List (List (Item × List M)) → ℕ
  delivered_from cloud i [] = 0
  delivered_from cloud i (c ∷ cs) =
      let more = delivered_from cloud (i + 1) cs in if is_delivered (cloud i) then suc more else 0

  abbrev pub marks_in : List (List (Item × List M)) → List M
  marks_in [] = []
  marks_in (c ∷ cs) = marks_of c ++ marks_in cs

  stopped_applied :
      (first : Bool) (st : Checkin M) (sending : List String)
      → (if first then record st { acks = st.acks ++ sending } else st).applied ≡ st.applied ++ []
  stopped_applied true st sending = sym (append-nil st.applied)
  stopped_applied false st sending = sym (append-nil st.applied)

  send_chunks-applied :
      (cloud : ℕ → PostOutcome) (owed : ℕ → List String) (sending : List String) (i : ℕ)
      (cs : List (List (Item × List M))) (st : Checkin M)
      → (let r = send_chunks cloud owed sending i cs st in
          (r.1.applied ≡ st.applied ++ marks_in (take (delivered_from cloud i cs) cs))
          × ((r.0 ≡ true) → delivered_from cloud i cs ≡ length cs))
  unfolding send_chunks delivered_from
  send_chunks-applied cloud owed sending i [] st = (sym (append-nil st.applied), λ h. refl)
  send_chunks-applied cloud owed sending i (c ∷ cs) st =
      let next : Checkin M = record {
        acks = st.acks ++ owed i;
        applied = st.applied ++ marks_of c;
      } in
      let ih = send_chunks-applied cloud owed sending (i + 1) cs next in
      let k = delivered_from cloud (i + 1) cs in
      elim (Bool-cases (is_delivered (cloud i))) [
        | inl e ↦ rw e (
          ih.0 ∙ append_assoc st.applied (marks_of c) (marks_in (take k cs)),
          λ h. ap suc (ih.1 h),
        )
        | inr e ↦ rw e (stopped_applied (i == 0) st sending, λ h. ground (arith, h))
      ]

  marks_of-append :
      (xs ys : List (Item × List M)) → marks_of (xs ++ ys) ≡ marks_of xs ++ marks_of ys
  marks_of-append [] ys = refl
  marks_of-append (x ∷ xs) ys =
      rw (marks_of-append xs ys) (sym (append_assoc x.1 (marks_of xs) (marks_of ys)))

  marks_in-joined : (ps : List (List (Item × List M))) → marks_in ps ≡ marks_of (joined_posts ps)
  marks_in-joined [] = refl
  marks_in-joined (p ∷ ps) =
      ap (λ l. marks_of p ++ l) (marks_in-joined ps) ∙ sym (marks_of-append p (joined_posts ps))

  posts_of-joined : (keyframe : List (Item × List M)) → joined_posts (posts_of keyframe) ≡ keyframe
  posts_of-joined [] = refl
  posts_of-joined (b ∷ bs) =
      chunks-joined (length (b ∷ bs)) max_items (b ∷ bs) (omega arith) (omega arith)

  take_all : (ps : List (List (Item × List M))) → take (length ps) ps ≡ ps
  take_all [] = refl
  take_all (p ∷ ps) = ap (λ l. p ∷ l) (take_all ps)

  first_lost :
      (cloud : ℕ → PostOutcome) (owed : ℕ → List String) (pending_acks : List String)
      (keyframe : List (Item × List M))
      → is_delivered (cloud 0) ≡ false
      → (let r =
            send_chunks cloud owed pending_acks 0
              (posts_of keyframe)
              (record { acks = []; applied = [] }) in
          (r.0 ≡ false) × (r.1.applied ≡ []) × (r.1.acks ≡ pending_acks))
  unfolding send_chunks chunks
  first_lost cloud owed pending_acks [] e = rw e (refl, refl, refl)
  first_lost cloud owed pending_acks (b ∷ bs) e = rw e (refl, refl, refl)

  -- A check-in makes "last sent" exactly what the posts delivered before the first lost one carry, and
  -- the whole keyframe when it succeeds. If the first post is lost it fails, nothing is marked, and
  -- the acknowledgements that were taken are owed again.
  pub checkin_once-landed :
      (cloud : ℕ → PostOutcome) (owed : ℕ → List String) (pending_acks : List String)
      (keyframe : List (Item × List M))
      → (let r = checkin_once cloud owed pending_acks keyframe in
          let posts = posts_of keyframe in
          (r.1.applied ≡ marks_of (joined_posts (take (delivered_from cloud 0 posts) posts)))
          × ((r.0 ≡ true) → r.1.applied ≡ marks_of keyframe)
          × ((is_delivered (cloud 0) ≡ false)
              → (r.0 ≡ false) × (r.1.applied ≡ []) × (r.1.acks ≡ pending_acks)))
  unfolding checkin_once
  checkin_once-landed cloud owed pending_acks keyframe =
      let posts = posts_of keyframe in
      let none_yet : Checkin M = record { acks = []; applied = [] } in
      let k = delivered_from cloud 0 posts in
      let a = send_chunks-applied cloud owed pending_acks 0 posts none_yet in
      let joined = a.0 ∙ marks_in-joined (take k posts) in
      (
        joined,
        λ h.
            joined
            ∙ ap (λ n. marks_of (joined_posts (take n posts))) (a.1 h)
            ∙ ap (λ ps. marks_of (joined_posts ps)) (take_all posts)
            ∙ ap marks_of (posts_of-joined keyframe),
        λ e. first_lost cloud owed pending_acks keyframe e,
      )
