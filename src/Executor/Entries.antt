-- ===== src/Executor/Entries.antt =====
-- The results of the executor while it runs: an entry of an operation, and what later results keep.
use mathlib.Core.Path.{subst}
use mathlib.Core.Option.{some-injective}
use efloud.Prelude.{
  String, true, false, List, [], ◌∷◌, none, some, not, ◌&&◌, ◌≡◌, refl, sym, ap, ◌∙◌, arith, inl,
  inr,
}
use efloud.Prelude.{◌==◌, string_eq, all, Member, Distinct, is_some, Bool-cases}
use efloud.Prelude.Dict
use efloud.Prelude.Dict.{lookup, keys}
use efloud.Prelude.Keyed.{Keyed, insert-Keyed}
use efloud.Planning.{PlannedOperation}
use efloud.Executor.Operation.{OperationExecutionResult, is_blocked}
use efloud.Executor.Waves.{Results, result_key, has_succeeded, is_ready, is_success}

-- The later results have what the earlier ones have.
abbrev pub Kept : Results → Results → Type 0
Kept earlier later = (d : String) → Dict.has d earlier ≡ true → lookup d later ≡ lookup d earlier

pub Kept-has : (r t : Results) → Kept r t → (d : String) → Dict.has d r ≡ true → Dict.has d t ≡ true
Kept-has r t k d h = ap is_some (k d h) ∙ h

pub Kept-refl : (r : Results) → Kept r r
Kept-refl r d h = refl

pub Kept-trans : (r t u : Results) → Kept r t → Kept t u → Kept r u
Kept-trans r t u k l d h = l d (Kept-has r t k d h) ∙ k d h

has-none : (results : Results) (d : String) → lookup d results ≡ none → Dict.has d results ≡ false
has-none results d h = ap is_some h

pub insert-Kept :
    (k : String) (r : OperationExecutionResult) (results : Results)
    → lookup k results ≡ none
    → Kept results (Dict.insert k r results)
insert-Kept k r results fresh d h = elim (Bool-cases (d == k)) [
  | inr other ↦ rw (Dict.lookup-insert d k r results, other) refl
  | inl same ↦ absurd (
      ground (
        arith,
        has-none results k fresh,
        subst (λ x. Dict.has x results ≡ true) ((string_eq.beq_iff d k).0 same) h,
      ))
]

module _ (results later : Results) (kept : Kept results later) where
  pub all-succeeded-Kept :
      (ds : List String)
      → all (λ d. Dict.has d results) ds ≡ true
      → all (has_succeeded later) ds ≡ all (has_succeeded results) ds
  all-succeeded-Kept [] h = refl
  all-succeeded-Kept (d ∷ ds) h =
      ap (λ b. b && all (has_succeeded later) ds) (ap is_success (kept d (ground arith)))
      ∙ ap (λ b. has_succeeded results d && b) (all-succeeded-Kept ds (ground arith))

  pub all-has-Kept :
      (ds : List String)
      → all (λ d. Dict.has d results) ds ≡ true
      → all (λ d. Dict.has d later) ds ≡ true
  all-has-Kept [] h = refl
  all-has-Kept (d ∷ ds) h = ground (arith, Kept-has results later kept d, all-has-Kept ds)

-- The result of one of the operations, with the verdict that its dependencies give.
pub record Entry (ops : List PlannedOperation) (results : Results) (k : String)
    (r : OperationExecutionResult) : Type 0 where
  pub op : PlannedOperation
  pub listed : Member op ops
  pub key : op.operation_key ≡ k
  pub ready : is_ready results op ≡ true
  pub verdict : is_blocked r.status ≡ not (all (has_succeeded results) op.dependencies)

pub record Settling (ops : List PlannedOperation) (results : Results) : Type 0 where
  pub entries :
      (k : String) (r : OperationExecutionResult)
      → lookup k results ≡ some r
      → Entry ops results k r
  pub keyed : Keyed result_key results
  pub unique : Distinct (keys results)

-- An operation that is ready and has no result.
pub record Startable (ops : List PlannedOperation) (results : Results) (o : PlannedOperation)
    : Type 0 where
  pub listed : Member o ops
  pub ready : is_ready results o ≡ true
  pub fresh : lookup o.operation_key results ≡ none

module _ (ops : List PlannedOperation) where
  pub empty-Settling : Settling ops []
  empty-Settling = record {
    entries = λ k r h. absurd (ground (arith, Dict.lookup-nil {V = OperationExecutionResult} k));
    keyed = tt;
    unique = tt;
  }

  Entry-Kept :
      (results later : Results) (k : String) (r : OperationExecutionResult)
      → Kept results later
      → Entry ops results k r
      → Entry ops later k r
  Entry-Kept results later k r kept e = record {
    op = e.op;
    listed = e.listed;
    key = e.key;
    ready = all-has-Kept results later kept e.op.dependencies e.ready;
    verdict =
        e.verdict ∙ ap not (sym (all-succeeded-Kept results later kept e.op.dependencies e.ready));
  }

  pub Startable-insert :
      (results : Results) (k : String) (r : OperationExecutionResult) (o : PlannedOperation)
      → lookup k results ≡ none
      → (k == o.operation_key) ≡ false
      → Startable ops results o
      → Startable ops (Dict.insert k r results) o
  Startable-insert results k r o fresh other s = record {
    listed = s.listed;
    ready =
        all-has-Kept results (Dict.insert k r results) (insert-Kept k r results fresh)
          o.dependencies s.ready;
    fresh = ground (
      arith,
      Dict.lookup-insert o.operation_key k r results,
      s.fresh,
      string_eq.beq_iff k o.operation_key,
      string_eq.beq_iff o.operation_key k,
    );
  }

  -- A result with the right verdict is added.
  pub insert-Settling :
      (results : Results) (o : PlannedOperation) (r : OperationExecutionResult)
      → Settling ops results
      → Startable ops results o
      → r.operation_key ≡ o.operation_key
      → is_blocked r.status ≡ not (all (has_succeeded results) o.dependencies)
      → Settling ops (Dict.insert o.operation_key r results)
  insert-Settling results o r s start named verdict =
      let later = Dict.insert o.operation_key r results in
      let kept = insert-Kept o.operation_key r results start.fresh in
      record {
        entries = λ k x h. elim (Bool-cases (k == o.operation_key)) [
          | inl same ↦
              let new = rw (Dict.lookup-insert k o.operation_key r results, same) at h in
              subst (Entry ops later k) (some-injective _ _ new) (
                Entry-Kept results later k r kept (record {
                  op = o;
                  listed = start.listed;
                  key = sym ((string_eq.beq_iff k o.operation_key).0 same);
                  ready = start.ready;
                  verdict = verdict;
                }))
          | inr other ↦
              let old = rw (Dict.lookup-insert k o.operation_key r results, other) at h in
              Entry-Kept results later k x kept (s.entries k x old)
        ];
        keyed =
            subst (λ k. Keyed result_key (Dict.insert k r results)) named
              (insert-Keyed result_key r results s.keyed);
        unique = Dict.insert-Distinct o.operation_key r results s.unique;
      }
