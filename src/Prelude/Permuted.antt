-- ===== src/Prelude/Permuted.antt =====
-- Sorting permuted lists by distinct keys.
use mathlib.Core.Path.{◌≡◌, refl, sym, ◌∙◌}
use mathlib.Core.Bool.{Bool, false}
use mathlib.Core.List.{List, [], ◌∷◌, map, Permᴰ}
use Prim.Native.String.{String}
use native.Mathlib.Omega.{arith}
use efloud.Prelude.Tests.{string_eq, ◌==◌}
use efloud.Prelude.Lists.{contains, Distinct}
use efloud.Prelude.Text.{str_leb, str_leb_total, str_leb_trans, str_leb_antisymm}
use efloud.Prelude.Sort
use efloud.Prelude.Sort.{sort}

module _ {ℓ} {A : Type ℓ} (f : A → String) where
  abbrev pub key_leb : A → A → Bool
  key_leb a b = str_leb (f a) (f b)

  insert-swap :
      (x y : A) (zs : List A)
      → (f x == f y) ≡ false
      → Sort.insert key_leb x (Sort.insert key_leb y zs)
        ≡ Sort.insert key_leb y (Sort.insert key_leb x zs)
  unfolding Sort.insert
  insert-swap x y [] h = ground (
    arith,
    str_leb_total (f x) (f y),
    str_leb_antisymm (f x) (f y),
    string_eq.beq_iff (f x) (f y),
  )
  insert-swap x y (z ∷ zs) h = ground (
    arith,
    str_leb_total (f x) (f y),
    str_leb_antisymm (f x) (f y),
    string_eq.beq_iff (f x) (f y),
    insert-swap x y zs h,
    str_leb_trans (f x) (f y) (f z),
    str_leb_trans (f y) (f x) (f z),
    str_leb_total (f x) (f z),
    str_leb_total (f y) (f z),
  )

  contains-map-Perm :
      (k : String) {xs ys : List A} → Permᴰ xs ys → contains (map f xs) k ≡ contains (map f ys) k
  contains-map-Perm k Permᴰ.nil = refl
  contains-map-Perm k (Permᴰ.cons e p) = rw (e, contains-map-Perm k p) refl
  contains-map-Perm k (Permᴰ.swap d e) = rw (d, e) (ground arith)
  contains-map-Perm k (Permᴰ.trans p q) = contains-map-Perm k p ∙ contains-map-Perm k q

  Distinct-Perm : {xs ys : List A} → Permᴰ xs ys → Distinct (map f xs) → Distinct (map f ys)
  Distinct-Perm Permᴰ.nil u = tt
  Distinct-Perm (Permᴰ.cons {b = b} e p) u =
      (sym (contains-map-Perm (f b) p) ∙ rw (← e) u.0, Distinct-Perm p u.1)
  Distinct-Perm (Permᴰ.swap {a' = a} {b' = b} d e) u =
      ground (arith, string_eq.beq_iff (f a) (f b), string_eq.beq_iff (f b) (f a))
  Distinct-Perm (Permᴰ.trans p q) u = Distinct-Perm q (Distinct-Perm p u)

  -- Two orders of the same elements, with distinct keys, are sorted alike.
  pub sort-Perm :
      {xs ys : List A} → Permᴰ xs ys → Distinct (map f xs) → sort key_leb xs ≡ sort key_leb ys
  unfolding sort
  sort-Perm Permᴰ.nil u = refl
  sort-Perm (Permᴰ.cons {l₂ = ys} e p) u = rw (e, sort-Perm p u.1) refl
  sort-Perm (Permᴰ.swap {a = a} {b = b} {l = l} d e) u =
      rw (← d, ← e)
        (insert-swap a b (sort key_leb l)
          (ground (arith, string_eq.beq_iff (f a) (f b), string_eq.beq_iff (f b) (f a))))
  sort-Perm (Permᴰ.trans p q) u = sort-Perm p u ∙ sort-Perm q (Distinct-Perm p u)
