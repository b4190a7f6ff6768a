-- ===== src/Prelude/Keyed.antt =====
-- Dict comprehensions `{f(x): x for x in xs}`, and lists whose elements have distinct keys.
use mathlib.Core.Path.{◌≡◌, refl, sym, ap, ◌∙◌}
use mathlib.Core.Logic.{◌⊎◌, inl, inr}
use mathlib.Core.Bool.{true, false, ◌||◌}
use mathlib.Core.Option.{some}
use mathlib.Core.List.{List, [], ◌∷◌, ◌++◌, map, append_assoc, append-nil}
use native.Mathlib.Omega.{arith}
use efloud.Prelude.Tests.{Eq, ◌==◌, beq_refl, Bool-cases}
use efloud.Prelude.Lists.{Member, contains, Distinct}
use efloud.Prelude.Dict
use efloud.Prelude.Dict.{Dict, keys, values, lookup}

module _ {ℓ κ} {A : Type ℓ} {K : Type κ} ⦃e : Eq K⦄ (f : A → K) where
  unfoldable pub index_onto : Dict K A → List A → Dict K A
  index_onto d [] = d
  index_onto d (x ∷ xs) = index_onto (Dict.insert (f x) x d) xs

  -- `{f(x): x for x in xs}`
  unfoldable pub index : List A → Dict K A
  unfolding index_onto
  index xs = index_onto [] xs

  -- Every entry stands under its own key.
  abbrev pub Keyed : Dict K A → Type κ
  Keyed [] = Unit
  Keyed ((k, v) ∷ d) = (k ≡ f v) × Keyed d

  abbrev pub entries_of : List A → Dict K A
  entries_of [] = []
  entries_of (x ∷ xs) = (f x, x) ∷ entries_of xs

  pub insert-Keyed : (v : A) (d : Dict K A) → Keyed d → Keyed (Dict.insert (f v) v d)
  unfolding Dict.insert
  insert-Keyed v [] h = (refl, tt)
  insert-Keyed v ((i, w) ∷ d) h = elim (Bool-cases (f v == i)) [
    | inl p ↦ rw p (refl, h.1)
    | inr p ↦ rw p (h.0, insert-Keyed v d h.1)
  ]

  pub keys-eq-map : (d : Dict K A) → Keyed d → keys d ≡ map f (values d)
  keys-eq-map [] h = refl
  keys-eq-map ((i, w) ∷ d) h = rw (h.0, keys-eq-map d h.1)

  index_onto-Keyed : (d : Dict K A) (xs : List A) → Keyed d → Keyed (index_onto d xs)
  unfolding index_onto
  index_onto-Keyed d [] h = h
  index_onto-Keyed d (x ∷ xs) h = index_onto-Keyed (Dict.insert (f x) x d) xs (insert-Keyed x d h)

  index_onto-Distinct :
      (d : Dict K A) (xs : List A) → Distinct (keys d) → Distinct (keys (index_onto d xs))
  unfolding index_onto
  index_onto-Distinct d [] h = h
  index_onto-Distinct d (x ∷ xs) h =
      index_onto-Distinct (Dict.insert (f x) x d) xs (Dict.insert-Distinct (f x) x d h)

  pub index-Keyed : (xs : List A) → Keyed (index xs)
  unfolding index
  index-Keyed xs = index_onto-Keyed [] xs tt

  pub index-Distinct : (xs : List A) → Distinct (keys (index xs))
  unfolding index
  index-Distinct xs = index_onto-Distinct [] xs tt

  contains-keys-index_onto :
      (k : K) (d : Dict K A) (xs : List A)
      → contains (keys (index_onto d xs)) k ≡ (contains (map f xs) k || contains (keys d) k)
  unfolding index_onto
  contains-keys-index_onto k d [] = refl
  contains-keys-index_onto k d (x ∷ xs) = ground (
    arith,
    contains-keys-index_onto k (Dict.insert (f x) x d) xs,
    Dict.contains-keys-insert k (f x) x d,
  )

  -- The keys of the comprehension are those of the elements.
  pub contains-map-index :
      (k : K) (xs : List A) → contains (map f (values (index xs))) k ≡ contains (map f xs) k
  unfolding index
  contains-map-index k xs =
      ap (λ z. contains z k) (sym (keys-eq-map (index xs) (index-Keyed xs)))
      ∙ ground (arith, contains-keys-index_onto k [] xs)

  insert_fresh :
      (v : A) (d : Dict K A)
      → contains (keys d) (f v) ≡ false
      → Dict.insert (f v) v d ≡ d ++ ((f v, v) ∷ [])
  unfolding Dict.insert
  insert_fresh v [] h = refl
  insert_fresh v ((i, w) ∷ d) h = ground (arith, insert_fresh v d)

  contains-keys-append :
      (k : K) (d c : Dict K A)
      → contains (keys (d ++ c)) k ≡ (contains (keys d) k || contains (keys c) k)
  contains-keys-append k [] c = refl
  contains-keys-append k ((i, w) ∷ d) c = ground (arith, contains-keys-append k d c)

  -- No key of the list is a key of the dict.
  abbrev Apart : Dict K A → List A → Type 0
  Apart d [] = Unit
  Apart d (x ∷ xs) = (contains (keys d) (f x) ≡ false) × Apart d xs

  Apart-snoc :
      (d : Dict K A) (x : A) (xs : List A)
      → Apart d xs
      → contains (map f xs) (f x) ≡ false
      → Apart (d ++ ((f x, x) ∷ [])) xs
  Apart-snoc d x [] h k = tt
  Apart-snoc d x (y ∷ ys) h k = (
    ground (
      arith,
      contains-keys-append (f y) d ((f x, x) ∷ []),
      e.beq_iff (f x) (f y),
      e.beq_iff (f y) (f x),
    ),
    Apart-snoc d x ys h.1 (ground arith),
  )

  index_onto-eq :
      (d : Dict K A) (xs : List A)
      → Distinct (map f xs)
      → Apart d xs
      → index_onto d xs ≡ d ++ entries_of xs
  unfolding index_onto
  index_onto-eq d [] u h = sym (append-nil d)
  index_onto-eq d (x ∷ xs) u h = rw (insert_fresh x d h.0) (
      index_onto-eq (d ++ ((f x, x) ∷ [])) xs u.1 (Apart-snoc d x xs h.1 u.0)
      ∙ append_assoc d ((f x, x) ∷ []) (entries_of xs))

  Apart-nil : (xs : List A) → Apart [] xs
  Apart-nil [] = tt
  Apart-nil (x ∷ xs) = (refl, Apart-nil xs)

  -- Where the keys are distinct the comprehension drops nothing.
  pub index-eq-entries : (xs : List A) → Distinct (map f xs) → index xs ≡ entries_of xs
  unfolding index
  index-eq-entries xs u = index_onto-eq [] xs u (Apart-nil xs)

  pub values-entries : (xs : List A) → values (entries_of xs) ≡ xs
  values-entries [] = refl
  values-entries (x ∷ xs) = ap (◌∷◌ x) (values-entries xs)

  pub values-index : (xs : List A) → Distinct (map f xs) → values (index xs) ≡ xs
  values-index xs u = rw (index-eq-entries xs u) (values-entries xs)

  contains-map_of_Member : (x : A) (xs : List A) → Member x xs → contains (map f xs) (f x) ≡ true
  contains-map_of_Member x [] m = absurd (m tt)
  contains-map_of_Member x (y ∷ ys) m = elim m [
    | inl q ↦ rw (q, beq_refl (f y))
    | inr r ↦ ground (arith, contains-map_of_Member x ys r)
  ]

  pub lookup-entries :
      (x : A) (xs : List A)
      → Distinct (map f xs)
      → Member x xs
      → lookup (f x) (entries_of xs) ≡ some x
  unfolding lookup
  lookup-entries x [] u m = absurd (m tt)
  lookup-entries x (y ∷ ys) u m = elim m [
    | inl q ↦ rw (q, beq_refl (f y))
    | inr r ↦
        ground
          (arith, lookup-entries x ys u.1 r, contains-map_of_Member x ys r, e.beq_iff (f x) (f y))
  ]

  pub lookup-index :
      (x : A) (xs : List A) → Distinct (map f xs) → Member x xs → lookup (f x) (index xs) ≡ some x
  lookup-index x xs u m = rw (index-eq-entries xs u) (lookup-entries x xs u m)

module _ {ℓ κ} {A : Type ℓ} {K : Type κ} ⦃e : Eq K⦄ (f : A → K) where
  Member-values-index_onto :
      (a : A) (d : Dict K A) (xs : List A)
      → Member a (values (index_onto f d xs))
      → Member a (values d) ⊎ Member a xs
  unfolding index_onto
  Member-values-index_onto a d [] m = inl m
  Member-values-index_onto a d (x ∷ xs) m =
      elim (Member-values-index_onto a (Dict.insert (f x) x d) xs m) [
        | inl old ↦ elim (Dict.Member-values-insert a (f x) x d old) [
          | inl q ↦ inr (inl q)
          | inr r ↦ inl r
        ]
        | inr r ↦ inr (inr r)
      ]

  pub Member-values-index : (a : A) (xs : List A) → Member a (values (index f xs)) → Member a xs
  unfolding index
  Member-values-index a xs m = elim (Member-values-index_onto a [] xs m) [
    | inl old ↦ absurd (old tt)
    | inr r ↦ r
  ]

module _ {ℓ κ} {A : Type ℓ} {K : Type κ} ⦃e : Eq K⦄ (f : A → K) where
  pub lookup-Keyed : (k : K) (v : A) (d : Dict K A) → Keyed f d → lookup k d ≡ some v → k ≡ f v
  unfolding lookup
  lookup-Keyed k v [] h p = ground arith
  lookup-Keyed k v ((i, w) ∷ d) h p = ground (arith, e.beq_iff k i, lookup-Keyed k v d h.1)

  contains-keys_of_Member :
      (v : A) (d : Dict K A) → Keyed f d → Member v (values d) → contains (keys d) (f v) ≡ true
  contains-keys_of_Member v [] h m = absurd (m tt)
  contains-keys_of_Member v ((i, w) ∷ d) h m = elim m [
    | inl q ↦ rw (q, ← h.0, beq_refl i)
    | inr r ↦ ground (arith, contains-keys_of_Member v d h.1 r)
  ]

  -- In a keyed dict with distinct keys a value is found under its key.
  pub lookup_of_Member-values :
      (v : A) (d : Dict K A)
      → Keyed f d
      → Distinct (keys d)
      → Member v (values d)
      → lookup (f v) d ≡ some v
  unfolding lookup
  lookup_of_Member-values v [] h u m = absurd (m tt)
  lookup_of_Member-values v ((i, w) ∷ d) h u m = elim m [
    | inl q ↦ rw (q, ← h.0, beq_refl i)
    | inr r ↦ ground (
      arith,
      lookup_of_Member-values v d h.1 u.1 r,
      contains-keys_of_Member v d h.1 r,
      e.beq_iff (f v) i,
    )
  ]
