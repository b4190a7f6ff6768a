-- ===== src/Catalog/Extension.antt =====
-- When a later state of a catalog extends an earlier one.
use efloud.Prelude.{ℕ, String, List, true, some, ◌≡◌, refl, arith, inl, inr, ◌∙◌}
use efloud.Prelude.{string_eq, nat_eq, contains, Bool-cases}
use efloud.Prelude.Dict
use efloud.Prelude.Dict.{lookup, lookup-insert}
use efloud.Json.{JsonObject}
use efloud.Models.{
  RunId, OperationId, ContentRef, ArtifactObservation, ArtifactAbsence, ProvenanceEdge,
}
use efloud.Records.{RunRecord, OperationRecord}
use efloud.Catalog.State.{MemoryCatalog}
use efloud.Catalog.Runs.{run_terminal, operation_terminal, start_run}
use efloud.Catalog.Frames.{SameLifecycle, SameEvidence}

-- What is recorded of a run or an operation when it starts is kept, and a terminal record is
-- kept whole.
pub record ExtendsLifecycle (c d : MemoryCatalog) : Type 0 where
  pub run_kept :
      (id : RunId) (r : RunRecord)
      → lookup id c.runs ≡ some r
      → (s : RunRecord) × (lookup id d.runs ≡ some s)
        × (s.run_id ≡ r.run_id)
        × (s.started_at ≡ r.started_at)
        × (s.metadata ≡ r.metadata)
  pub run_final :
      (id : RunId) (r : RunRecord)
      → lookup id c.runs ≡ some r
      → contains run_terminal r.status ≡ true
      → lookup id d.runs ≡ some r
  pub operation_kept :
      (id : OperationId) (o : OperationRecord)
      → lookup id c.operations ≡ some o
      → (p : OperationRecord) × (lookup id d.operations ≡ some p)
        × (p.run_id ≡ o.run_id)
        × (p.source_id ≡ o.source_id)
        × (p.started_at ≡ o.started_at)
        × (p.parameters ≡ o.parameters)
  pub operation_final :
      (id : OperationId) (o : OperationRecord)
      → lookup id c.operations ≡ some o
      → contains operation_terminal o.status ≡ true
      → lookup id d.operations ≡ some o

-- Contents, observations, absences and provenance are never changed and never lost.
pub record ExtendsEvidence (c d : MemoryCatalog) : Type 0 where
  pub content_kept :
      (id : String) (r : ContentRef) → lookup id c.contents ≡ some r → lookup id d.contents ≡ some r
  pub observation_kept :
      (id : String) (o : ArtifactObservation)
      → lookup id c.observations ≡ some o
      → lookup id d.observations ≡ some o
  pub absence_kept :
      (id : String) (a : ArtifactAbsence)
      → lookup id c.absences ≡ some a
      → lookup id d.absences ≡ some a
  pub provenance_kept :
      (id : String) (es : List ProvenanceEdge)
      → lookup id c.provenance ≡ some es
      → lookup id d.provenance ≡ some es

pub ExtendsLifecycle-refl : (c : MemoryCatalog) → ExtendsLifecycle c c
ExtendsLifecycle-refl c = record {
  run_kept = λ id r h. (r, h, refl, refl, refl);
  run_final = λ id r h t. h;
  operation_kept = λ id o h. (o, h, refl, refl, refl, refl);
  operation_final = λ id o h t. h;
}

pub ExtendsEvidence-refl : (c : MemoryCatalog) → ExtendsEvidence c c
ExtendsEvidence-refl c = record {
  content_kept = λ id r h. h;
  observation_kept = λ id o h. h;
  absence_kept = λ id a h. h;
  provenance_kept = λ id es h. h;
}

module _ {c d e : MemoryCatalog} where
  pub ExtendsLifecycle-trans : ExtendsLifecycle c d → ExtendsLifecycle d e → ExtendsLifecycle c e
  ExtendsLifecycle-trans p q = record {
    run_kept = λ id r h.
        let (s, hs, a, b, m) = p.run_kept id r h in
        let (t, ht, a', b', m') = q.run_kept id s hs in (t, ht, a' ∙ a, b' ∙ b, m' ∙ m);
    run_final = λ id r h t. q.run_final id r (p.run_final id r h t) t;
    operation_kept = λ id o h.
        let (s, hs, a, b, m, n) = p.operation_kept id o h in
        let (t, ht, a', b', m', n') = q.operation_kept id s hs in
        (t, ht, a' ∙ a, b' ∙ b, m' ∙ m, n' ∙ n);
    operation_final = λ id o h t. q.operation_final id o (p.operation_final id o h t) t;
  }

  pub ExtendsEvidence-trans : ExtendsEvidence c d → ExtendsEvidence d e → ExtendsEvidence c e
  ExtendsEvidence-trans p q = record {
    content_kept = λ id r h. q.content_kept id r (p.content_kept id r h);
    observation_kept = λ id o h. q.observation_kept id o (p.observation_kept id o h);
    absence_kept = λ id a h. q.absence_kept id a (p.absence_kept id a h);
    provenance_kept = λ id es h. q.provenance_kept id es (p.provenance_kept id es h);
  }

module _ {c d : MemoryCatalog} where
  pub ExtendsLifecycle-of_same : SameLifecycle c d → ExtendsLifecycle c d
  ExtendsLifecycle-of_same s = record {
    run_kept = λ id r h. (r, rw (← s.runs) h, refl, refl, refl);
    run_final = λ id r h t. rw (← s.runs) h;
    operation_kept = λ id o h. (o, rw (← s.operations) h, refl, refl, refl, refl);
    operation_final = λ id o h t. rw (← s.operations) h;
  }

  pub ExtendsEvidence-of_same : SameEvidence c d → ExtendsEvidence c d
  ExtendsEvidence-of_same s = record {
    content_kept = λ id r h. rw (← s.contents) h;
    observation_kept = λ id o h. rw (← s.observations) h;
    absence_kept = λ id a h. rw (← s.absences) h;
    provenance_kept = λ id es h. rw (← s.provenance) h;
  }

-- A running record is not terminal.
pub not_terminal : (s : String) → s ≡ "running" → contains run_terminal s ≡ true → ⊥
not_terminal s e h = cc (rw e at h)

pub not_terminal_operation : (s : String) → s ≡ "running" → contains operation_terminal s ≡ true → ⊥
not_terminal_operation s e h = cc (rw e at h)

module _ (c : MemoryCatalog) where
  pub start_run-Extends :
      (id : RunId) (t : ℕ) (m : JsonObject) → ExtendsLifecycle c (start_run id t m c).1
  unfolding start_run
  start_run-Extends id t m = elim (Bool-cases (Dict.has id c.runs)) [
    | inl old ↦ rw old (ExtendsLifecycle-refl c)
    | inr new ↦ rw new (record {
      run_kept =
          λ j r h. (r, rw lookup-insert (ground (arith, string_eq.beq_iff j id)), refl, refl, refl);
      run_final = λ j r h f. rw lookup-insert (ground (arith, string_eq.beq_iff j id));
      operation_kept = λ j o h. (o, h, refl, refl, refl, refl);
      operation_final = λ j o h f. h;
    })
  ]
