-- ===== src/Executor/Listing.antt =====
-- The results as a list: the values of a dict in the order of its keys.
use mathlib.Core.Path.{subst}
use efloud.Prelude.{String, Bool, List, [], ◌∷◌, map, ◌≡◌, refl, sym, ap, ◌∙◌, arith, inl, inr, ◌↔◌}
use efloud.Prelude.{string_eq, contains_iff, Member, Member-map_of, Distinct}
use efloud.Prelude.Sort.{sort, Member-sort}
use efloud.Prelude.Dict.{Dict, keys, values}
use efloud.Prelude.Keyed.{Keyed}
use efloud.Planning.{PlannedOperation, operation_key}
use efloud.Executor.Operation.{OperationExecutionResult}
use efloud.Executor.Waves.{Results, result_key}

module _ {ℓ} {V : Type ℓ} where
  pub Member-values-pair :
      (v : V) (d : Dict String V) → Member v (values d) → (k : String) × Member (k, v) d
  Member-values-pair v [] m = absurd (m tt)
  Member-values-pair v ((k, w) ∷ d) m = elim m [
    | inl e ↦ (k, inl (ap (λ x. (k, x)) e))
    | inr n ↦ let (j, i) = Member-values-pair v d n in (j, inr i)
  ]

  pub Member-pair-values :
      (k : String) (v : V) (d : Dict String V) → Member (k, v) d → Member v (values d)
  Member-pair-values k v [] m = absurd (m tt)
  Member-pair-values k v ((j, w) ∷ d) m = elim m [
    | inl e ↦ inl (ap (λ p. p.1) e)
    | inr n ↦ inr (Member-pair-values k v d n)
  ]

  -- The values of a sorted dict are the values of the dict.
  pub Member-values-sort :
      (le : String × V → String × V → Bool) (v : V) (d : Dict String V)
      → Member v (values (sort le d)) ↔ Member v (values d)
  Member-values-sort le v d = (
    λ m.
        let (k, i) = Member-values-pair v (sort le d) m in
        Member-pair-values k v d ((Member-sort le (k, v) d).0 i),
    λ m.
        let (k, i) = Member-values-pair v d m in
        Member-pair-values k v (sort le d) ((Member-sort le (k, v) d).1 i),
  )

pub Keyed-pair :
    (d : Results) (p : String × OperationExecutionResult)
    → Keyed result_key d
    → Member p d
    → p.0 ≡ result_key p.1
Keyed-pair [] p h m = absurd (m tt)
Keyed-pair ((k, r) ∷ d) p h m = elim m [
  | inl e ↦ subst (λ z. z.0 ≡ result_key z.1) (sym e) h.0
  | inr n ↦ Keyed-pair d p h.1 n
]

pub keys-values :
    (d : Results)
    → ((p : String × OperationExecutionResult) → Member p d → p.0 ≡ result_key p.1)
    → map result_key (values d) ≡ map (λ p. p.0) d
keys-values [] h = refl
keys-values ((k, r) ∷ d) h = rw (← (h (k, r) (inl refl)), keys-values d (λ p m. h p (inr m))) refl

pub keys-eq-first : (d : Results) → keys d ≡ map (λ p. p.0) d
keys-eq-first [] = refl
keys-eq-first ((k, r) ∷ d) = ap (◌∷◌ k) (keys-eq-first d)

pub same_operation :
    (ops : List PlannedOperation) (a b : PlannedOperation)
    → Distinct (map operation_key ops)
    → Member a ops
    → Member b ops
    → a.operation_key ≡ b.operation_key
    → a ≡ b
same_operation [] a b u m n e = absurd (m tt)
same_operation (o ∷ os) a b u m n e = elim m [
  | inl p ↦ elim n [
    | inl q ↦ p ∙ sym q
    | inr r ↦ absurd (
        ground (
          arith,
          (contains_iff (map operation_key os) o.operation_key).1 (
              subst (λ k. Member k (map operation_key os)) (sym e ∙ ap operation_key p)
                (Member-map_of operation_key b os r)),
        ))
  ]
  | inr l ↦ elim n [
    | inl q ↦ absurd (
        ground (
          arith,
          (contains_iff (map operation_key os) o.operation_key).1 (
              subst (λ k. Member k (map operation_key os)) (e ∙ ap operation_key q)
                (Member-map_of operation_key a os l)),
        ))
    | inr r ↦ same_operation os a b u.1 l r e
  ]
]
