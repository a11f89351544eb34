-- ===== src/Api/Routers/Lookup.antt =====
-- Finding a router in a list that an action has changed, and routers with different ids.
use dock_neighbor_hub.Shared.{
  ◌≡◌, ◌⊎◌, inl, inr, Bool-cases, refl, Bool, false, ◌||◌, none, some, List, [], ◌∷◌, String, arith,
  any, str_eq, str_eq_iff, if◌then◌else◌,
}
use dock_neighbor_hub.Store.{RouterConfig}
use dock_neighbor_hub.Api.Routers.{find_router, put_router, edit_router, drop_router}

abbrev pub has_id : String → List RouterConfig → Bool
has_id id rs = any (λ r. str_eq r.id id) rs

-- No two routers share an id.
abbrev pub Distinct : List RouterConfig → Type 0
Distinct [] = Unit
Distinct (r ∷ rs) = (has_id r.id rs ≡ false) × Distinct rs

pub find-put :
    (k : String) (r : RouterConfig) (rs : List RouterConfig)
    → find_router k (put_router r rs) ≡ (if str_eq r.id k then some r else find_router k rs)
unfolding find_router put_router
find-put k r [] = refl
find-put k r (x ∷ rs) =
    ground (arith, str_eq_iff x.id r.id, str_eq_iff r.id k, str_eq_iff x.id k, find-put k r rs)

pub find-drop :
    (k id : String) (rs : List RouterConfig)
    → find_router k (drop_router id rs) ≡ (if str_eq id k then none else find_router k rs)
unfolding find_router drop_router
find-drop k id [] = ground arith
find-drop k id (x ∷ rs) =
    ground (arith, str_eq_iff x.id id, str_eq_iff id k, str_eq_iff x.id k, find-drop k id rs)

has_id-put :
    (k : String) (r : RouterConfig) (rs : List RouterConfig)
    → has_id k (put_router r rs) ≡ (str_eq r.id k || has_id k rs)
unfolding put_router
has_id-put k r [] = refl
has_id-put k r (x ∷ rs) =
    ground (arith, str_eq_iff x.id r.id, str_eq_iff r.id k, str_eq_iff x.id k, has_id-put k r rs)

has_id-drop :
    (k id : String) (rs : List RouterConfig)
    → has_id k rs ≡ false
    → has_id k (drop_router id rs) ≡ false
unfolding drop_router
has_id-drop k id [] h = refl
has_id-drop k id (x ∷ rs) h = ground (arith, h, has_id-drop k id rs)

pub put-Distinct :
    (r : RouterConfig) (rs : List RouterConfig) → Distinct rs → Distinct (put_router r rs)
unfolding put_router
put-Distinct r [] d = (refl, tt)
put-Distinct r (x ∷ rs) d =
    ground (
      arith,
      d,
      str_eq_iff x.id r.id,
      str_eq_iff r.id x.id,
      has_id-put x.id r rs,
      put-Distinct r rs,
    )

pub drop-Distinct :
    (id : String) (rs : List RouterConfig) → Distinct rs → Distinct (drop_router id rs)
unfolding drop_router
drop-Distinct id [] d = tt
drop-Distinct id (x ∷ rs) d = ground (arith, d, has_id-drop x.id id rs, drop-Distinct id rs)

-- A change of the first router of an id that keeps the id.
module _ (id : String) (change : RouterConfig → RouterConfig)
    (same_id : (x : RouterConfig) → (change x).id ≡ x.id) where
  has_id-edit :
      (k : String) (rs : List RouterConfig) → has_id k (edit_router id change rs) ≡ has_id k rs
  unfolding edit_router
  has_id-edit k [] = refl
  has_id-edit k (x ∷ rs) = ground (arith, same_id x, has_id-edit k rs)

  pub edit-Distinct : (rs : List RouterConfig) → Distinct rs → Distinct (edit_router id change rs)
  unfolding edit_router
  edit-Distinct [] d = tt
  edit-Distinct (x ∷ rs) d = ground (arith, d, same_id x, has_id-edit x.id rs, edit-Distinct rs)

  pub find-edit :
      (k : String) (rs : List RouterConfig) (r : RouterConfig)
      → find_router k (edit_router id change rs) ≡ some r
      → (find_router k rs ≡ some r)
        ⊎ ((x : RouterConfig) × (find_router k rs ≡ some x)
            × (find_router id rs ≡ some x)
            × (r ≡ change x))
  unfolding edit_router find_router
  find-edit k [] r h = inl h
  find-edit k (x ∷ rs) r h = elim (Bool-cases (str_eq x.id id)) [
    | inl e ↦ elim (Bool-cases (str_eq x.id k)) [
      | inl q ↦ inr (x, rw q refl, rw e refl, ground (arith, h, e, q, same_id x))
      | inr q ↦ inl (rw q (ground (arith, h, e, q, same_id x)))
    ]
    | inr e ↦ elim (Bool-cases (str_eq x.id k)) [
      | inl q ↦ inl (rw q (ground (arith, h, e, q)))
      | inr q ↦ rw (e, q) (find-edit k rs r (ground (arith, h, e, q)))
    ]
  ]
