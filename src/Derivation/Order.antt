-- ===== src/Derivation/Order.antt =====
-- The derivation key of derivation.py, for permuted inputs and outputs.
use mathlib.Core.List.{Permᴰ}
use efloud.Prelude.{String, List, [], ◌∷◌, map, ◌≡◌, refl, ap, ◌∙◌, arith}
use efloud.Prelude.Sort
use efloud.Prelude.Sort.{sort}
use efloud.Prelude.Text.{str_leb, str_leb_total, str_leb_trans, str_leb_antisymm}
use efloud.Json.{Json}
use efloud.Models.{ArtifactKey, ArtifactObservation}
use efloud.Derivation.{DerivedTaskSpec, input_identity, input_identities, derivation_key_for}

insert-swap_text :
    (x y : String) (zs : List String)
    → Sort.insert str_leb x (Sort.insert str_leb y zs)
      ≡ Sort.insert str_leb y (Sort.insert str_leb x zs)
unfolding Sort.insert
insert-swap_text x y [] = ground (arith, str_leb_total x y, str_leb_antisymm x y)
insert-swap_text x y (z ∷ zs) = ground (
  arith,
  str_leb_total x y,
  str_leb_antisymm x y,
  insert-swap_text x y zs,
  str_leb_trans x y z,
  str_leb_trans y x z,
  str_leb_total x z,
  str_leb_total y z,
)

sort-Perm_text : {xs ys : List String} → Permᴰ xs ys → sort str_leb xs ≡ sort str_leb ys
unfolding sort
sort-Perm_text Permᴰ.nil = refl
sort-Perm_text (Permᴰ.cons e p) = rw (e, sort-Perm_text p) refl
sort-Perm_text (Permᴰ.swap {a = a} {b = b} {l = l} d e) =
    rw (← d, ← e) (insert-swap_text a b (sort str_leb l))
sort-Perm_text (Permᴰ.trans p q) = sort-Perm_text p ∙ sort-Perm_text q

map-Perm {ℓ} :
    {A : Type ℓ} (f : A → String) {xs ys : List A} → Permᴰ xs ys → Permᴰ (map f xs) (map f ys)
map-Perm f Permᴰ.nil = Permᴰ.nil
map-Perm f (Permᴰ.cons e p) = Permᴰ.cons (ap f e) (map-Perm f p)
map-Perm f (Permᴰ.swap d e) = Permᴰ.swap (ap f d) (ap f e)
map-Perm f (Permᴰ.trans p q) = Permᴰ.trans (map-Perm f p) (map-Perm f q)

-- Permuted outputs and permuted inputs give the same derivation key, repeated ones included.
pub derivation_key_for-Perm :
    (digest : Json → String) (spec : DerivedTaskSpec) {outputs outputs' : List ArtifactKey}
    {inputs inputs' : List ArtifactObservation}
    → Permᴰ outputs outputs'
    → Permᴰ inputs inputs'
    → derivation_key_for digest spec outputs inputs
      ≡ derivation_key_for digest spec outputs' inputs'
unfolding derivation_key_for input_identities
derivation_key_for-Perm digest spec p q =
    rw (sort-Perm_text p, sort-Perm_text (map-Perm (input_identity spec.dependency_semantics) q))
      refl
