-- ===== src/Prelude/Indexed.antt =====
-- What is found in a comprehension, and distinct keys in sorted, filtered and joined lists.
use mathlib.Core.Path.{◌≡◌, refl, sym, subst, ◌∙◌}
use mathlib.Core.Logic.{inl, inr}
use mathlib.Core.Bool.{Bool, true, false, ◌||◌}
use mathlib.Core.Option.{none, some, none-ne-some}
use mathlib.Core.List.{List, [], ◌∷◌, ◌++◌, map}
use native.Mathlib.Omega.{arith}
use efloud.Prelude.Tests.{Eq, ◌==◌, Bool-cases}
use efloud.Prelude.Lists.{All, Member, contains, contains_iff, Distinct, filter}
use efloud.Prelude.Sort
use efloud.Prelude.Sort.{sort, Sorted}
use efloud.Prelude.Dict.{lookup}
use efloud.Prelude.Keyed.{index, entries_of, index-eq-entries, lookup-index}

module _ {ℓ κ} {A : Type ℓ} {K : Type κ} ⦃e : Eq K⦄ (f : A → K) where
  lookup-entries_sound :
      (k : K) (x : A) (xs : List A) → lookup k (entries_of f xs) ≡ some x → Member x xs × (f x ≡ k)
  unfolding lookup
  lookup-entries_sound k x [] h = cc
  lookup-entries_sound k x (y ∷ ys) h = elim (Bool-cases (k == f y)) [
    | inl same ↦ ground (arith, e.beq_iff k (f y))
    | inr other ↦ let r = lookup-entries_sound k x ys (rw (other, lookup) at h) in (inr r.0, r.1)
  ]

  -- What is found in the comprehension is in the list, under that key.
  pub lookup-index_sound :
      (k : K) (x : A) (xs : List A)
      → Distinct (map f xs)
      → lookup k (index f xs) ≡ some x
      → Member x xs × (f x ≡ k)
  lookup-index_sound k x xs u h = lookup-entries_sound k x xs (rw (index-eq-entries f xs u) at h)

  -- A key that is not found is the key of no element.
  pub lookup-index-none :
      (k : K) (x : A) (xs : List A)
      → Distinct (map f xs)
      → lookup k (index f xs) ≡ none
      → Member x xs
      → ¬ (f x ≡ k)
  lookup-index-none k x xs u h m q =
      none-ne-some x
        (sym (subst (λ j. lookup j (index f xs) ≡ none) (sym q) h) ∙ lookup-index f x xs u m)

module _ {ℓ κ} {A : Type ℓ} {K : Type κ} ⦃e : Eq K⦄ (f : A → K) where
  contains-map-insert :
      (le : A → A → Bool) (k : K) (x : A) (ys : List A)
      → contains (map f (Sort.insert le x ys)) k ≡ (k == f x || contains (map f ys) k)
  unfolding Sort.insert
  contains-map-insert le k x [] = refl
  contains-map-insert le k x (y ∷ ys) = ground (arith, contains-map-insert le k x ys)

  pub contains-map-sort :
      (le : A → A → Bool) (k : K) (xs : List A)
      → contains (map f (sort le xs)) k ≡ contains (map f xs) k
  unfolding sort
  contains-map-sort le k [] = refl
  contains-map-sort le k (x ∷ xs) =
      ground (arith, contains-map-insert le k x (sort le xs), contains-map-sort le k xs)

  insert-Distinct_sorted :
      (le : A → A → Bool) (x : A) (ys : List A)
      → Distinct (map f ys)
      → contains (map f ys) (f x) ≡ false
      → Distinct (map f (Sort.insert le x ys))
  unfolding Sort.insert
  insert-Distinct_sorted le x [] u h = (refl, tt)
  insert-Distinct_sorted le x (y ∷ ys) u h = ground (
    arith,
    insert-Distinct_sorted le x ys,
    contains-map-insert le (f y) x ys,
    e.beq_iff (f x) (f y),
    e.beq_iff (f y) (f x),
  )

  pub sort-Distinct :
      (le : A → A → Bool) (xs : List A) → Distinct (map f xs) → Distinct (map f (sort le xs))
  unfolding sort
  sort-Distinct le [] u = tt
  sort-Distinct le (x ∷ xs) u =
      insert-Distinct_sorted le x (sort le xs) (sort-Distinct le xs u.1)
        (contains-map-sort le (f x) xs ∙ u.0)

module _ {ℓ} {A : Type ℓ} (le : A → A → Bool) where
  insert_first : (x : A) (ys : List A) → All (λ y. le x y ≡ true) ys → Sort.insert le x ys ≡ x ∷ ys
  unfolding Sort.insert
  insert_first x [] h = refl
  insert_first x (y ∷ ys) h = rw h.0

  -- To sort a sorted list changes nothing.
  pub sort_of_Sorted : (xs : List A) → Sorted le xs → sort le xs ≡ xs
  unfolding sort
  sort_of_Sorted [] s = refl
  sort_of_Sorted (x ∷ xs) s = rw (sort_of_Sorted xs s.1) (insert_first x xs s.0)

module _ {ℓ κ} {A : Type ℓ} {K : Type κ} ⦃e : Eq K⦄ (f : A → K) where
  contains-map-filter :
      (p : A → Bool) (k : K) (xs : List A)
      → contains (map f xs) k ≡ false
      → contains (map f (filter p xs)) k ≡ false
  contains-map-filter p k [] h = refl
  contains-map-filter p k (x ∷ xs) h = ground (arith, contains-map-filter p k xs)

  pub filter-Distinct :
      (p : A → Bool) (xs : List A) → Distinct (map f xs) → Distinct (map f (filter p xs))
  filter-Distinct p [] u = tt
  filter-Distinct p (x ∷ xs) u =
      ground (arith, filter-Distinct p xs, contains-map-filter p (f x) xs)

module _ {ℓ} {A : Type ℓ} ⦃e : Eq A⦄ where
  contains-append :
      (xs ys : List A) (a : A) → contains (xs ++ ys) a ≡ (contains xs a || contains ys a)
  contains-append [] ys a = refl
  contains-append (x ∷ xs) ys a = ground (arith, contains-append xs ys a)

  -- Two lists with distinct elements and none in common make one.
  pub append-Distinct :
      (xs ys : List A)
      → Distinct xs
      → Distinct ys
      → ((a : A) → Member a ys → contains xs a ≡ false)
      → Distinct (xs ++ ys)
  append-Distinct [] ys u v apart = v
  append-Distinct (x ∷ xs) ys u v apart = (
    elim (Bool-cases (contains ys x)) [
      | inr out ↦ ground (arith, contains-append xs ys x)
      | inl back ↦
          ground
            (arith, contains-append xs ys x, apart x ((contains_iff ys x).0 back), e.beq_iff x x)
    ],
    append-Distinct xs ys u.1 v (λ a m. ground (arith, apart a m)),
  )
