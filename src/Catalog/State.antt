-- ===== src/Catalog/State.antt =====
-- The fields of `MemoryCatalog`, and methods as functions of the whole state.
use efloud.Prelude.{ℕ, String, List, []}
use efloud.Prelude.Dict.{Dict}
use efloud.Errors.{Result, ok, raise, Fault}
use efloud.Models.{
  SourceId, RunId, OperationId, ContentId, ObservationId, SnapshotId, ContentRef,
  ArtifactObservation, ArtifactAbsence, ProvenanceEdge, ValidationResult, SourceSnapshot,
}
use efloud.Records.{SourceRecord, RunRecord, OperationRecord, DatasetRecord}

pub record MemoryCatalog : Type 0 where
  pub sources : Dict SourceId SourceRecord
  pub runs : Dict RunId RunRecord
  pub operations : Dict OperationId OperationRecord
  pub contents : Dict ContentId ContentRef
  pub observations : Dict ObservationId ArtifactObservation
  pub absences : Dict ObservationId ArtifactAbsence
  pub provenance : Dict ObservationId (List ProvenanceEdge)
  pub validations : Dict (ContentId × (String × String)) ValidationResult
  pub snapshots : Dict SnapshotId SourceSnapshot
  pub datasets : Dict String DatasetRecord

abbrev pub empty : MemoryCatalog
empty = record {
  sources = [];
  runs = [];
  operations = [];
  contents = [];
  observations = [];
  absences = [];
  provenance = [];
  validations = [];
  snapshots = [];
  datasets = [];
}

-- A method that may raise: what it returns or raises, and the state that it leaves.
abbrev pub Outcome : Type 0
Outcome = Result (Unit {0}) × MemoryCatalog

abbrev pub done : MemoryCatalog → Outcome
done c = (ok tt, c)

abbrev pub fail : Fault → MemoryCatalog → Outcome
fail f c = (raise f, c)

-- A Python integer given as a limit.
pub data ℤ : Type 0 where
  pos : ℕ → ℤ
  negsuc : ℕ → ℤ

-- `max(0, limit)`
abbrev pub max_zero : ℤ → ℕ
max_zero (pos n) = n
max_zero (negsuc n) = 0
