-- ===== src/Repository/Operations.antt =====
-- When `Repository.start_operation` and `Repository.finish_operation` return.
use mathlib.Core.Path.{subst}
use mathlib.Core.Option.{some-injective}
use mathlib.Core.Logic.{◌↔◌}
use efloud.Prelude.{
  ℕ, String, true, Option, none, some, ◌≡◌, refl, sym, ap, ◌∙◌, not, arith, inl, inr,
}
use efloud.Prelude.{◌==◌, string_eq, contains, Bool-cases, Option-cases}
use efloud.Prelude.Dict.{lookup}
use efloud.Errors.{ok, Fault, ok_injective}
use efloud.Json.{Json, JsonObject, str, obj, put}
use efloud.Models.{SourceId, OperationId, ProducerRef, producer_to_dict}
use efloud.Payloads.{operation_id_for}
use efloud.Records.{RunRecord, OperationRecord}
use efloud.Catalog
use efloud.Catalog.State.{MemoryCatalog, done}
use efloud.Catalog.Runs.{NewOperation, insert_operation, operation_terminal}
use efloud.Catalog.Cases.{
  CanStart, CanFinishOperation, open_operation, close_operation, finish_operation_cases,
}
use efloud.Repository
use efloud.Repository.State.{
  RepositoryState, ◌>>=◌, lift, read, demand, raise_if, catalog_call, require_active,
}
use efloud.Repository.Steps.{
  after-eq, after-ok, require_active-eq, require_active-ok, demand-eq, demand-ok, raise_if-eq,
  raise_if-ok, catalog_call-eq, catalog_call-ok, not_raised, lift-eq, lift-ok,
}
use efloud.Repository.Runs.{
  canonical_terminal_status, producer_or_default, source_evidence, revision_key,
}
use efloud.Repository.Lifecycle.{with_catalog}

canonical-eq :
    (status : String)
    → contains operation_terminal status ≡ true
    → canonical_terminal_status status true ≡ ok status
unfolding canonical_terminal_status
canonical-eq status h = rw h refl

canonical-ok :
    (status final : String) → canonical_terminal_status status true ≡ ok final → final ≡ status
unfolding canonical_terminal_status
canonical-ok status final h = elim (Bool-cases (contains operation_terminal status)) [
  | inl e ↦ ok_injective (sym (rw (e, canonical_terminal_status) at h))
  | inr e ↦ absurd (ground (arith, rw (e, canonical_terminal_status) at h))
]

finish_operation-done :
    (id : OperationId) (t : ℕ) (status : String) (d : JsonObject) (c : MemoryCatalog)
    (o : OperationRecord)
    → CanFinishOperation c id status o
    → Catalog.Runs.finish_operation id t status d c ≡ done (close_operation id t status d o c)
unfolding Catalog.Runs.finish_operation
finish_operation-done id t status d c o can =
    let found = can.found in
    let running = (string_eq.beq_iff o.status "running").1 can.running in
    ground (arith, can.terminal)

start_operation-done :
    (id : OperationId) (n : NewOperation) (c : MemoryCatalog) (run : RunRecord)
    → CanStart c id n run
    → Catalog.Runs.start_operation id n c ≡ done (open_operation id n c)
unfolding Catalog.Runs.start_operation insert_operation
start_operation-done id n c run can =
    let found = can.found in
    let running = (string_eq.beq_iff run.status "running").1 can.running in
    ground (arith, can.produced, can.fresh)

-- The parameters with the revision of the source, if there is one and it is known.
abbrev pub evidenced : JsonObject → Option SourceId → MemoryCatalog → Option JsonObject
evidenced payload none c = some payload
evidenced payload (some id) c = elim (lookup id c.sources) [
  | none ↦ none
  | some r ↦ some (put revision_key (str r.revision_id) payload)
]

module _ {Blobs : Type 0} (digest : Json → String) (s : RepositoryState Blobs) where
  source_evidence-eq :
      (payload parameters : JsonObject) (id : Option SourceId)
      → evidenced payload id s.catalog ≡ some parameters
      → source_evidence digest payload id s ≡ (ok parameters, s)
  unfolding source_evidence ◌>>=◌
  source_evidence-eq payload parameters none h =
      lift-eq (ok payload) s (ap ok (some-injective _ _ h))
  source_evidence-eq payload parameters (some id) h =
      elim (Option-cases (lookup id s.catalog.sources)) [
        | inl e ↦ absurd (ground (arith, rw (e, evidenced) at h))
        | inr (r, e) ↦
            after-eq _ _
              (after-eq _ _ (demand-eq Fault.unknown_source (λ s. lookup id s.catalog.sources) s e)
                (lift-eq (ok r.revision_id) s refl))
              (lift-eq _ s (ap ok (some-injective _ _ (rw (e, evidenced) at h))))
      ]

  -- What `start_operation` makes of a new operation of a known producer.
  pub start_operation-returns :
      (normalize : String → String) (producer : ProducerRef) (n : NewOperation) (run : RunRecord)
      (parameters : JsonObject)
      → s.active ≡ true
      → evidenced
          (put "producer" (obj (producer_to_dict producer)) n.parameters)
          n.source_id
          s.catalog
        ≡ some parameters
      → CanStart s.catalog
          (operation_id_for digest n.run_id n.kind n.subject)
          (record n { parameters = parameters })
          run
      → Repository.Runs.start_operation digest normalize (some producer) n s ≡ (
        ok (operation_id_for digest n.run_id n.kind n.subject),
        with_catalog s (
            open_operation
              (operation_id_for digest n.run_id n.kind n.subject)
              (record n { parameters = parameters })
              s.catalog),
      )
  unfolding Repository.Runs.start_operation ◌>>=◌ producer_or_default
  start_operation-returns normalize producer n run parameters active e can =
      let id = operation_id_for digest n.run_id n.kind n.subject in
      let m : NewOperation = record n { parameters = parameters } in
      after-eq (require_active s) _ (require_active-eq s active) (
        after-eq _ _ (demand-eq Fault.unknown_run (λ s. lookup n.run_id s.catalog.runs) s can.found)
          (after-eq _ _
            (raise_if-eq (not (run.status == "running")) Fault.run_terminal s
              (ap not ((string_eq.beq_iff run.status "running").1 can.running)))
            (after-eq _ _ (lift-eq (ok producer) s refl) (
              after-eq _ _ (source_evidence-eq _ parameters n.source_id e) (
                after-eq _ _
                  (catalog_call-eq (Catalog.Runs.start_operation id m) s _
                    (start_operation-done id m s.catalog run can))
                  (lift-eq (ok id) _ refl))))))

  finish_operation-returns :
      (id : OperationId) (status : String) (t : ℕ) (details : JsonObject) (o : OperationRecord)
      → s.active ≡ true
      → CanFinishOperation s.catalog id status o
      → Repository.Runs.finish_operation digest id status t details s
        ≡ (ok tt, with_catalog s (close_operation id t status details o s.catalog))
  unfolding Repository.Runs.finish_operation ◌>>=◌
  finish_operation-returns id status t details o active can =
      after-eq (require_active s) _ (require_active-eq s active) (
        after-eq _ _
          (demand-eq Fault.unknown_operation (λ s. lookup id s.catalog.operations) s can.found)
          (after-eq _ _
            (raise_if-eq (not (o.status == "running")) Fault.operation_not_running s
              (ap not ((string_eq.beq_iff o.status "running").1 can.running)))
            (after-eq _ _
              (lift-eq (canonical_terminal_status status true) s (canonical-eq status can.terminal))
              (catalog_call-eq (Catalog.Runs.finish_operation id t status details) s _
                (finish_operation-done id t status details s.catalog o can)))))

  finish_operation-only :
      (id : OperationId) (status : String) (t : ℕ) (details : JsonObject)
      (u : RepositoryState Blobs)
      → Repository.Runs.finish_operation digest id status t details s ≡ (ok tt, u)
      → (s.active ≡ true)
        × (o : OperationRecord) × CanFinishOperation s.catalog id status o
        × (u ≡ with_catalog s (close_operation id t status details o s.catalog))
  unfolding Repository.Runs.finish_operation ◌>>=◌
  finish_operation-only id status t details u h =
      let (w, a, e, h1) = after-ok (require_active s) _ u h in
      let (active, ea) = require_active-ok s a e in
      let (o, b, f, h2) =
        after-ok (read (λ s. demand Fault.unknown_operation (lookup id s.catalog.operations)) a) _ u
          h1 in
      let (found, eb) =
        demand-ok Fault.unknown_operation (λ s. lookup id s.catalog.operations) a b o f in
      let (x, c, g, h3) =
        after-ok (raise_if (not (o.status == "running")) Fault.operation_not_running b) _ u h2 in
      let (going, ec) =
        raise_if-ok (not (o.status == "running")) Fault.operation_not_running b c g in
      let (final, v, l, h4) = after-ok (lift (canonical_terminal_status status true) c) _ u h3 in
      let (canonical, ev) = lift-ok (canonical_terminal_status status true) c v l in
      let called =
        subst (λ z. catalog_call (Catalog.Runs.finish_operation id t final details) z ≡ (ok tt, u))
          (ev ∙ ec ∙ eb ∙ ea) h4 in
      let named =
        subst (λ z. catalog_call (Catalog.Runs.finish_operation id t z details) s ≡ (ok tt, u))
          (canonical-ok status final canonical) called in
      elim (finish_operation_cases id t status details s.catalog) [
        | inl (fault, bad) ↦
            absurd
              (not_raised (Catalog.Runs.finish_operation id t status details) s u fault bad named)
        | inr (o, can, good) ↦ (
          active,
          o,
          can,
          catalog_call-ok (Catalog.Runs.finish_operation id t status details) s u _ good named,
        )
      ]

  -- `finish_operation` returns exactly if the writer lease is held, the operation is known and running
  -- and the status is one of an operation that has ended; it then ends the operation with that status,
  -- time and details, and changes nothing else.
  pub finish_operation-returns_iff :
      (id : OperationId) (status : String) (t : ℕ) (details : JsonObject)
      (u : RepositoryState Blobs)
      → (Repository.Runs.finish_operation digest id status t details s ≡ (ok tt, u)) ↔ (
          (s.active ≡ true)
          × (o : OperationRecord) × CanFinishOperation s.catalog id status o
          × (u ≡ with_catalog s (close_operation id t status details o s.catalog)))
  finish_operation-returns_iff id status t details u = (
    finish_operation-only id status t details u,
    λ h.
        let (active, o, can, e) = h in
        finish_operation-returns id status t details o active can ∙ ap (λ z. (ok tt, z)) (sym e),
  )
