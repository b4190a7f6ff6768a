-- ===== src/Repository/Fresh.antt =====
-- When the executor can start an operation of a plan in a repository, and when one is open.
use efloud.Prelude.{
  String, true, false, List, Option, none, some, ◌≡◌, refl, ap, ◌∙◌, ◌⊎◌, arith, inl, inr,
}
use efloud.Prelude.{◌==◌, string_eq, Member}
use efloud.Prelude.Dict
use efloud.Prelude.Dict.{lookup, lookup-insert, lookup-insert_self}
use efloud.Errors.{ok}
use efloud.Json.{Json, JsonObject, end, field, str, obj, get, put}
use efloud.Models.{
  SourceId, OperationId, ProducerRef, producer_ref, producer_from_mapping, producer_to_dict,
}
use efloud.Payloads.{operation_id_for}
use efloud.Records.{SourceRecord, RunRecord, OperationRecord}
use efloud.Catalog.State.{MemoryCatalog}
use efloud.Catalog.Runs.{check_producer}
use efloud.Planning.{PlannedOperation, PlannedOperationKind, source, derived}
use efloud.Executor.Store.{interrupted}
use efloud.Executor.Operation.{ExecutionContext, Source, source_by_id, operation_kind}
use efloud.Repository.State.{RepositoryState}
use efloud.Repository.Runs.{revision_key}
use efloud.Repository.Operations.{evidenced}
use efloud.Repository.Services.{Work}

abbrev pub source_of : ExecutionContext → PlannedOperation → Option Source
source_of context o = elim o.source_id [ none ↦ none | some id ↦ source_by_id context.sources id ]

get-put :
    (k j : String) (v : Json) (o : JsonObject) → (k == j) ≡ false → get k (put j v o) ≡ get k o
get-put k j v end h = ground arith
get-put k j v (field i w o) h =
    ground
      (arith, string_eq.beq_iff j i, string_eq.beq_iff k i, string_eq.beq_iff k j, get-put k j v o)

pub get-put_self : (k : String) (v : Json) (o : JsonObject) → get k (put k v o) ≡ some v
get-put_self k v end = ground (arith, string_eq.beq_iff k k)
get-put_self k v (field i w o) = ground (arith, string_eq.beq_iff k k, get-put_self k v o)

-- The evidence of a source leaves the other parameters as they are.
pub evidenced-known :
    (payload : JsonObject) (source_id : Option SourceId) (c : MemoryCatalog)
    → ((id : SourceId) → source_id ≡ some id → (r : SourceRecord) × (lookup id c.sources ≡ some r))
    → (ps : JsonObject) × (evidenced payload source_id c ≡ some ps)
      × (get "producer" ps ≡ get "producer" payload)
evidenced-known payload none c h = (payload, refl, refl)
evidenced-known payload (some id) c h =
    let (r, e) = h id refl in
    (
      put revision_key (str r.revision_id) payload,
      rw (e, evidenced) refl,
      get-put "producer" revision_key (str r.revision_id) payload refl,
    )

-- A producer that was constructed is read back from the parameters.
pub check_producer-none :
    (ps : JsonObject) (p : ProducerRef)
    → get "producer" ps ≡ some (obj (producer_to_dict p))
    → producer_ref p.producer_id p.version ≡ ok p
    → check_producer ps ≡ none
unfolding check_producer producer_from_mapping producer_to_dict
check_producer-none ps p h e = rw (h, check_producer, e) refl

pub kind-cases : (k : PlannedOperationKind) → (k ≡ source) ⊎ (k ≡ derived)
kind-cases source = inl refl
kind-cases derived = inr refl

pub still_unstarted :
    (j id : OperationId) (r : OperationRecord) (d : Dict.Dict OperationId OperationRecord)
    → ¬ (j ≡ id)
    → Dict.has j d ≡ false
    → Dict.has j (Dict.insert id r d) ≡ false
still_unstarted j id r d other h = ground (arith, lookup-insert j id r d, string_eq.beq_iff j id)

module _ {Blobs : Type 0} where
  -- The lease, the runs and the operations are as they were, and no source is lost.
  pub record Undisturbed (s t : RepositoryState Blobs) : Type 0 where
    pub active : t.active ≡ s.active
    pub runs : t.catalog.runs ≡ s.catalog.runs
    pub operations : t.catalog.operations ≡ s.catalog.operations
    pub sources :
        (id : SourceId) (r : SourceRecord)
        → lookup id s.catalog.sources ≡ some r
        → (q : SourceRecord) × (lookup id t.catalog.sources ≡ some q)

  -- The adapters and the tasks are not cancelled, and leave runs and operations to the executor.
  pub record Uncancelled (work : Work Blobs) : Type 0 where
    pub acquired :
        (o : PlannedOperation) (id : OperationId) (s : RepositoryState Blobs)
        → ((work.acquire o id s).0 ≡ interrupted → ⊥) × Undisturbed s (work.acquire o id s).1
    pub derived :
        (o : PlannedOperation) (id : OperationId) (s : RepositoryState Blobs)
        → ((work.derive o id s).0 ≡ interrupted → ⊥) × Undisturbed s (work.derive o id s).1

  pub Undisturbed-refl : (s : RepositoryState Blobs) → Undisturbed s s
  Undisturbed-refl s = record {
    active = refl;
    runs = refl;
    operations = refl;
    sources = λ id r h. (r, h);
  }

  -- The operation is running, and the lease is held.
  pub record IsOpen (id : OperationId) (s : RepositoryState Blobs) : Type 0 where
    pub active : s.active ≡ true
    pub operation : OperationRecord
    pub found : lookup id s.catalog.operations ≡ some operation
    pub running : operation.status ≡ "running"

module _ (digest : Json → String) (context : ExecutionContext) where
  -- The identifier that the repository gives to the operation.
  abbrev pub identifier : PlannedOperation → OperationId
  identifier o =
      operation_id_for digest context.run_id (operation_kind o (source_of context o)) o.subject

  -- The lease is held, the run is running, the source of the operation is registered, and the
  -- operation was not started.
  pub record IsFresh {Blobs : Type 0} (o : PlannedOperation) (s : RepositoryState Blobs)
      : Type 0 where
    pub active : s.active ≡ true
    pub run : RunRecord
    pub found : lookup context.run_id s.catalog.runs ≡ some run
    pub running : run.status ≡ "running"
    pub registered :
        (id : SourceId)
        → o.source_id ≡ some id
        → (r : SourceRecord) × (lookup id s.catalog.sources ≡ some r)
    pub unstarted : Dict.has (identifier o) s.catalog.operations ≡ false

  -- The sources of the operations are configured, their producers were constructed, and two of
  -- them have the same identifier only if they are the same.
  pub record IsPlannedWell (ops : List PlannedOperation) : Type 0 where
    pub configured :
        (o : PlannedOperation) (id : SourceId)
        → Member o ops
        → o.source_id ≡ some id
        → (c : Source) × (source_by_id context.sources id ≡ some c)
    pub produced :
        (o : PlannedOperation)
        → Member o ops
        → producer_ref o.producer.producer_id o.producer.version ≡ ok o.producer
    pub apart :
        (o q : PlannedOperation)
        → Member o ops
        → Member q ops
        → ¬ (q.operation_key ≡ o.operation_key)
        → ¬ (identifier q ≡ identifier o)

module _ {Blobs : Type 0} {s t : RepositoryState Blobs} (u : Undisturbed s t) where
  pub IsOpen-Undisturbed : (id : OperationId) → IsOpen id s → IsOpen id t
  IsOpen-Undisturbed id h = record {
    active = u.active ∙ h.active;
    operation = h.operation;
    found = ap (lookup id) u.operations ∙ h.found;
    running = h.running;
  }

  pub IsFresh-Undisturbed :
      (digest : Json → String) (context : ExecutionContext) (o : PlannedOperation)
      → IsFresh digest context o s
      → IsFresh digest context o t
  IsFresh-Undisturbed digest context o h = record {
    active = u.active ∙ h.active;
    run = h.run;
    found = ap (lookup context.run_id) u.runs ∙ h.found;
    running = h.running;
    registered = λ id e. let (r, f) = h.registered id e in u.sources id r f;
    unstarted = ap (Dict.has (identifier digest context o)) u.operations ∙ h.unstarted;
  }
