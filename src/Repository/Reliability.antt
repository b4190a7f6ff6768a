-- ===== src/Repository/Reliability.antt =====
-- The repository is reliable for a plan whose operations have identifiers of their own: it starts each
-- operation that it does not hold yet, and finishes each that is running.
use efloud.Prelude.{
  ℕ, String, Bool, true, false, List, Option, none, some, ◌≡◌, refl, sym, ap, ◌∙◌, inl, inr,
}
use efloud.Prelude.{if◌then◌else◌, string_eq, contains, Member, Option-cases}
use efloud.Prelude.Dict.{lookup-insert_self}
use efloud.Errors.{ok}
use efloud.Json.{Json, JsonObject, obj, put}
use efloud.Models.{SourceId, OperationId, producer_to_dict}
use efloud.Catalog.Runs.{NewOperation, operation_terminal, running_operation}
use efloud.Catalog.Cases.{open_operation, close_operation}
use efloud.Planning.{PlannedOperation}
use efloud.Executor.Store.{Exec, Services, Attempt, interrupted}
use efloud.Executor.Operation.{
  ExecutionContext, Source, source_by_id, operation_kind, operation_parameters, start_operation,
  recorded_result, source_result, start_with, start_configured,
}
use efloud.Executor.Returns.{Reliable, KeepsBut, Keeps}
use efloud.Repository.State.{RepositoryState}
use efloud.Repository.Lifecycle.{with_catalog}
use efloud.Repository.Operations.{start_operation-returns, finish_operation-returns_iff}
use efloud.Repository.Services.{Work, repository_services}
use efloud.Repository.Fresh.{
  source_of, get-put_self, evidenced-known, check_producer-none, kind-cases, still_unstarted,
  Undisturbed, Uncancelled, Undisturbed-refl, IsOpen, identifier, IsFresh, IsPlannedWell,
  IsOpen-Undisturbed, IsFresh-Undisturbed,
}

module _ {Blobs : Type 0} (digest : Json → String) (normalize : String → String)
    (clock : RepositoryState Blobs → ℕ) (work : Work Blobs) (calm : Uncancelled work)
    (context : ExecutionContext) where
  -- What the executor calls.
  abbrev given : Services (RepositoryState Blobs)
  given = repository_services digest normalize clock work

  abbrev IsCalm : RepositoryState Blobs → Attempt × RepositoryState Blobs → Type 0
  IsCalm s p = ((p.0 ≡ interrupted) → ⊥) × Undisturbed s p.1

  IsCalm-if :
      (b : Bool) (s : RepositoryState Blobs) (p q : Attempt × RepositoryState Blobs)
      → IsCalm s p
      → IsCalm s q
      → IsCalm s (if b then p else q)
  IsCalm-if true s p q h k = h
  IsCalm-if false s p q h k = k

  source_result-IsCalm :
      (o : PlannedOperation) (id : OperationId) (s : RepositoryState Blobs)
      → IsCalm s (source_result given context o id s)
  unfolding source_result
  source_result-IsCalm o id s = elim (Option-cases o.source_id) [
    | inl e ↦ rw (e, source_result) ((λ h. cc), Undisturbed-refl s)
    | inr (source_id, e) ↦ elim (Option-cases (source_by_id context.sources source_id)) [
      | inl f ↦ rw (e, f, source_result) ((λ h. cc), Undisturbed-refl s)
      | inr (c, f) ↦
          rw (e, f, source_result)
            (IsCalm-if (work.has_adapter c.adapter_id) s _ _ (calm.acquired o id s)
              ((λ h. cc), Undisturbed-refl s))
    ]
  ]

  recorded_result-IsCalm :
      (o : PlannedOperation) (id : OperationId) (s : RepositoryState Blobs)
      → IsCalm s (recorded_result given context o id s)
  unfolding recorded_result
  recorded_result-IsCalm o id s = elim (kind-cases o.kind) [
    | inl e ↦ rw (e, recorded_result) (source_result-IsCalm o id s)
    | inr e ↦
        rw (e, recorded_result)
          (IsCalm-if (work.has_task o.subject) s _ _ (calm.derived o id s)
            ((λ h. cc), Undisturbed-refl s))
  ]

  start_configured-eq :
      (x : Option SourceId) (o : PlannedOperation) (s : RepositoryState Blobs)
      → ((id : SourceId) → x ≡ some id → (c : Source) × (source_by_id context.sources id ≡ some c))
      → (elim x as (λ x. Exec (RepositoryState Blobs) OperationId) [
        | none ↦ start_with given context o none
        | some id ↦ start_configured given context o (source_by_id context.sources id)
      ])
          s
        ≡ start_with given context o
            (elim x [ none ↦ none | some id ↦ source_by_id context.sources id ])
            s
  start_configured-eq none o s h = refl
  start_configured-eq (some id) o s h =
      let (c, e) = h id refl in
      ap (λ z. start_configured given context o z s) e
      ∙ ap (λ z. start_with given context o z s) (sym e)

  start_operation-eq :
      (ops : List PlannedOperation) (o : PlannedOperation) (s : RepositoryState Blobs)
      → IsPlannedWell digest context ops
      → Member o ops
      → start_operation given context o s ≡ start_with given context o (source_of context o) s
  unfolding start_operation
  start_operation-eq ops o s well m =
      start_configured-eq o.source_id o s (λ id e. well.configured o id m e)

  -- The operation as it is given to the catalog.
  abbrev new_operation : PlannedOperation → RepositoryState Blobs → NewOperation
  new_operation o s = record {
    run_id = context.run_id;
    source_id = o.source_id;
    kind = operation_kind o (source_of context o);
    subject = o.subject;
    started_at = clock s;
    parameters = operation_parameters context.plan o;
  }

  starts :
      (ops : List PlannedOperation) (o : PlannedOperation) (s : RepositoryState Blobs)
      → IsPlannedWell digest context ops
      → Member o ops
      → IsFresh digest context o s
      → (id : OperationId) × (t : RepositoryState Blobs) × (start_operation given context o s
          ≡ (ok id, t))
        × IsOpen id t
        × KeepsBut ops (IsFresh digest context) o.operation_key s t
  starts ops o s well m fresh =
      let n = new_operation o s in
      let id = identifier digest context o in
      let payload = put "producer" (obj (producer_to_dict o.producer)) n.parameters in
      let (ps, e, g) = evidenced-known payload o.source_id s.catalog fresh.registered in
      let started : NewOperation = record n { parameters = ps } in
      let produced =
        check_producer-none ps o.producer
          (g ∙ get-put_self "producer" (obj (producer_to_dict o.producer)) n.parameters)
          (well.produced o m) in
      (
        id,
        with_catalog s (open_operation id started s.catalog),
        start_operation-eq ops o s well m
            ∙ start_operation-returns digest s normalize o.producer n fresh.run ps fresh.active e
                (record {
                  found = fresh.found;
                  running = fresh.running;
                  produced = produced;
                  fresh = fresh.unstarted;
                }),
        record {
          active = fresh.active;
          operation = running_operation id started;
          found = lookup-insert_self id (running_operation id started) s.catalog.operations;
          running = refl;
        },
        λ q k other h. record {
          active = h.active;
          run = h.run;
          found = h.found;
          running = h.running;
          registered = h.registered;
          unstarted =
              still_unstarted (identifier digest context q) id (running_operation id started)
                s.catalog.operations (well.apart o q m k other) h.unstarted;
        },
      )

  finishes :
      (ops : List PlannedOperation) (id : OperationId) (status : String) (details : JsonObject)
      (s : RepositoryState Blobs)
      → contains operation_terminal status ≡ true
      → IsOpen id s
      → (t : RepositoryState Blobs) × (given.finish_operation id status details s ≡ (ok tt, t))
        × Keeps ops (IsFresh digest context) s t
  finishes ops id status details s terminal h =
      let o = h.operation in
      let t = with_catalog s (close_operation id (clock s) status details o s.catalog) in
      (
        t,
        (finish_operation-returns_iff digest s id status (clock s) details t).1 (
          h.active,
          o,
          record { found = h.found; running = h.running; terminal = terminal },
          refl,
        ),
        λ q m f. record {
          active = f.active;
          run = f.run;
          found = f.found;
          running = f.running;
          registered = f.registered;
          unstarted =
              still_unstarted (identifier digest context q) id _ s.catalog.operations
                (λ e. cc (rw (e, h.found) at f.unstarted)) f.unstarted;
        },
      )

  -- A repository is reliable for a plan whose sources are configured and whose operations have
  -- constructed producers and identifiers of their own, if the adapters and tasks are not cancelled.
  pub repository-Reliable :
      (ops : List PlannedOperation)
      → IsPlannedWell digest context ops
      → Reliable given context ops (IsFresh digest context) IsOpen
  repository-Reliable ops well = record {
    starts = λ o s m h. starts ops o s well m h;
    works = λ o id s m h.
        let (steady, u) = recorded_result-IsCalm o id s in
        (steady, IsOpen-Undisturbed u id h, λ q k f. IsFresh-Undisturbed u digest context q f);
    finishes = finishes ops;
  }
