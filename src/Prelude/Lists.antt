-- ===== src/Prelude/Lists.antt =====
-- Lists measured by native numbers, filtered by tests, and the predicates on their members.
use Prim.Native.Nat.{ℕ, zero, suc, ◌+◌, ◌≤◌}
use mathlib.Core.Path.{◌≡◌, refl, sym, ap, subst}
use mathlib.Core.Logic.{◌↔◌, ◌⊎◌, inl, inr}
use mathlib.Core.Bool.{Bool, true, false, not, ◌||◌, ◌&&◌}
use mathlib.Core.List.{List, [], ◌∷◌, ◌++◌, map}
use mathlib.Core.Option.{Option, none, some}
use native.Mathlib.Omega.{arith}
use efloud.Prelude.Tests.{if◌then◌else◌, Eq, ◌==◌}

module _ {ℓ} {A : Type ℓ} where
  abbrev pub length : List A → ℕ
  length [] = 0
  length (x ∷ xs) = suc (length xs)

  -- `xs[:n]`
  abbrev pub take : ℕ → List A → List A
  take zero xs = []
  take (suc n) [] = []
  take (suc n) (x ∷ xs) = x ∷ take n xs

  -- `[x for x in xs if p(x)]`
  abbrev pub filter : (A → Bool) → List A → List A
  filter p [] = []
  filter p (x ∷ xs) = let rest = filter p xs in if p x then x ∷ rest else rest

  abbrev pub any : (A → Bool) → List A → Bool
  any p [] = false
  any p (x ∷ xs) = p x || any p xs

  abbrev pub all : (A → Bool) → List A → Bool
  all p [] = true
  all p (x ∷ xs) = p x && all p xs

  abbrev pub All {κ} : (A → Type κ) → List A → Type κ
  All P [] = Unit
  All P (x ∷ xs) = P x × All P xs

  -- Membership, with the position kept.
  abbrev pub Member : A → List A → Type ℓ
  Member a [] = Unit → ⊥
  Member a (x ∷ xs) = (a ≡ x) ⊎ Member a xs

module _ {ℓ} {A : Type ℓ} where
  pub length-append : (xs ys : List A) → length (xs ++ ys) ≡ length xs + length ys
  length-append [] ys = omega arith
  length-append (x ∷ xs) ys = omega (arith, length-append xs ys)

  pub length-filter-le : (p : A → Bool) (xs : List A) → length (filter p xs) ≤ length xs
  length-filter-le p [] = omega arith
  length-filter-le p (x ∷ xs) = ground (arith, length-filter-le p xs)

  pub Member-filter :
      (p : A → Bool) (a : A) (xs : List A) → Member a (filter p xs) ↔ (Member a xs × (p a ≡ true))
  Member-filter p a [] = ground arith
  Member-filter p a (x ∷ xs) = ground (arith, Member-filter p a xs)

  pub filter-append :
      (p : A → Bool) (xs ys : List A) → filter p (xs ++ ys) ≡ filter p xs ++ filter p ys
  filter-append p [] ys = refl
  filter-append p (x ∷ xs) ys = ground (arith, filter-append p xs ys)

  pub Member-append : (a : A) (xs ys : List A) → Member a (xs ++ ys) ↔ (Member a xs ⊎ Member a ys)
  Member-append a [] ys = ground arith
  Member-append a (x ∷ xs) ys = ground (arith, Member-append a xs ys)

  pub All-at {κ} : (P : A → Type κ) (a : A) (xs : List A) → All P xs → Member a xs → P a
  All-at P a [] h m = absurd (m tt)
  All-at P a (x ∷ xs) h m = elim m [ inl e ↦ subst P (sym e) h.0 | inr r ↦ All-at P a xs h.1 r ]

  pub All-of {κ} : (P : A → Type κ) (xs : List A) → ((a : A) → Member a xs → P a) → All P xs
  All-of P [] h = tt
  All-of P (x ∷ xs) h = (h x (inl refl), All-of P xs (λ a m. h a (inr m)))

  pub all_iff :
      (p : A → Bool) (xs : List A) → (all p xs ≡ true) ↔ ((a : A) → Member a xs → p a ≡ true)
  all_iff p [] = (λ h a m. absurd (m tt), λ h. refl)
  all_iff p (x ∷ xs) = (
    λ h a m. elim m [ inl e ↦ ground arith | inr r ↦ (all_iff p xs).0 (ground arith) a r ],
    λ h. ground (arith, h x (inl refl), (all_iff p xs).1 (λ a m. h a (inr m))),
  )

  pub any-false_iff :
      (p : A → Bool) (xs : List A) → (any p xs ≡ false) ↔ ((a : A) → Member a xs → p a ≡ false)
  any-false_iff p [] = (λ h a m. absurd (m tt), λ h. refl)
  any-false_iff p (x ∷ xs) = (
    λ h a m. elim m [ inl e ↦ ground arith | inr r ↦ (any-false_iff p xs).0 (ground arith) a r ],
    λ h. ground (arith, h x (inl refl), (any-false_iff p xs).1 (λ a m. h a (inr m))),
  )

module _ {ℓ} {A : Type ℓ} ⦃e : Eq A⦄ where
  -- `a in xs`
  abbrev pub contains : List A → A → Bool
  contains [] a = false
  contains (x ∷ xs) a = a == x || contains xs a

  pub contains_iff : (xs : List A) (a : A) → (contains xs a ≡ true) ↔ Member a xs
  contains_iff [] a = ground arith
  contains_iff (x ∷ xs) a = ground (arith, e.beq_iff a x, contains_iff xs a)

  -- `len(set(xs)) == len(xs)`
  abbrev pub distinct : List A → Bool
  distinct [] = true
  distinct (x ∷ xs) = not (contains xs x) && distinct xs

  -- No element is listed twice.
  abbrev pub Distinct : List A → Type 0
  Distinct [] = Unit
  Distinct (x ∷ xs) = (contains xs x ≡ false) × Distinct xs

  pub distinct_iff : (xs : List A) → (distinct xs ≡ true) ↔ Distinct xs
  distinct_iff [] = ground arith
  distinct_iff (x ∷ xs) = ground (arith, distinct_iff xs)

module _ {ℓ} {A : Type ℓ} ⦃e : Eq A⦄ where
  -- The elements of `set(xs)`, each once; only sorted sets are ever listed.
  abbrev pub unique : List A → List A
  unique [] = []
  unique (x ∷ xs) = let rest = unique xs in if contains rest x then rest else x ∷ rest

  pub Member-unique : (a : A) (xs : List A) → Member a (unique xs) ↔ Member a xs
  Member-unique a [] = ground arith
  Member-unique a (x ∷ xs) = ground (
    arith,
    Member-unique a xs,
    contains_iff (unique xs) x,
    contains_iff (unique xs) a,
    contains_iff xs x,
  )

  pub unique-Distinct : (xs : List A) → Distinct (unique xs)
  unique-Distinct [] = tt
  unique-Distinct (x ∷ xs) = ground (arith, unique-Distinct xs)

module _ {ℓ} {A : Type ℓ} where
  abbrev pub max_onto : (A → A → Bool) → A → List A → A
  max_onto le best [] = best
  max_onto le best (x ∷ xs) = max_onto le (if le x best then best else x) xs

  -- `max(xs, key=...)`, the first of the greatest, for a list that may be empty.
  abbrev pub max_by : (A → A → Bool) → List A → Option A
  max_by le [] = none
  max_by le (x ∷ xs) = some (max_onto le x xs)

module _ {ℓ κ} {A : Type ℓ} {B : Type κ} (f : A → B) where
  -- A member of `[f(x) for x in xs]` comes from one of `xs`.
  pub Member-map : (b : B) (xs : List A) → Member b (map f xs) → (a : A) × Member a xs × (b ≡ f a)
  Member-map b [] m = absurd (m tt)
  Member-map b (x ∷ xs) m = elim m [
    | inl e ↦ (x, inl refl, e)
    | inr r ↦ let (a, k, e) = Member-map b xs r in (a, inr k, e)
  ]

  pub Member-map_of : (a : A) (xs : List A) → Member a xs → Member (f a) (map f xs)
  Member-map_of a [] m = absurd (m tt)
  Member-map_of a (x ∷ xs) m = elim m [ inl e ↦ inl (ap f e) | inr r ↦ inr (Member-map_of a xs r) ]
