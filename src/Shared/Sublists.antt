-- ===== src/Shared/Sublists.antt =====
-- One list left of another by taking entries out: the library's relation under short names.
use mathlib.Core.Path.{◌≡◌, refl}
use mathlib.Core.Logic.{∥∥₁_map}
use mathlib.Core.List.{List, [], ◌∷◌, ◌++◌, map, Sublistᴰ}
use mathlib.Core.Path.{ap}
unfoldable pub use mathlib.Core.List.{Sublist}
pub use mathlib.Core.List.{append_assoc, append-nil, nil-sublist, sublist-cons_self}
pub use mathlib.Core.List.Sublist.{
  refl as sublist_refl, trans as sublist_trans, append as sublist_append,
}

module _ {ℓ κ} {A : Type ℓ} {B : Type κ} (g : A → B) where
  pub map-append : (xs ys : List A) → map g (xs ++ ys) ≡ map g xs ++ map g ys
  map-append [] ys = refl
  map-append (x ∷ xs) ys = rw (map-append xs ys) refl

  map_kept : {xs ys : List A} → Sublistᴰ xs ys → Sublistᴰ (map g xs) (map g ys)
  map_kept Sublistᴰ.slnil = Sublistᴰ.slnil
  map_kept (Sublistᴰ.cons d) = Sublistᴰ.cons (map_kept d)
  map_kept (Sublistᴰ.cons-cons e d) = Sublistᴰ.cons-cons (ap g e) (map_kept d)

  pub map_sublist : (xs ys : List A) → Sublist xs ys → Sublist (map g xs) (map g ys)
  map_sublist xs ys h = ∥∥₁_map {B = Sublistᴰ (map g xs) (map g ys)} h (λ d. map_kept d)
