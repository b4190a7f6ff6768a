-- ===== src/Catalog/Snapshots.antt =====
-- Validations, source snapshots and datasets of `MemoryCatalog`.
use efloud.Prelude.{ℕ, String, Bool, List, ◌∷◌, Option, none, some, not}
use efloud.Prelude.{if◌then◌else◌, ◌==◌, string_eq, nat_eq, pair_eq, filter, take, leb}
use efloud.Prelude.Sort.{sort, flip, stamp_leb}
use efloud.Prelude.Text.{str_leb}
use efloud.Prelude.Dict
use efloud.Prelude.Dict.{values, lookup}
use efloud.Errors.{Result, ok, raise, Fault, ◌>>=◌}
use efloud.Json.{Json}
use efloud.Models.{ContentId, SourceId, ValidationResult, SourceSnapshot}
use efloud.Records.{DatasetRecord, members_beq, with_specifications, canonical_dataset}
use efloud.Catalog.State.{MemoryCatalog, Outcome, done, fail, ℤ, pos, negsuc}

abbrev pub validation_key : ValidationResult → ContentId × (String × String)
validation_key r = (r.content_id, (r.validator, r.validator_version))

-- The latest result of a validator at a version replaces the one before.
unfoldable pub record_validation : ValidationResult → MemoryCatalog → Outcome
record_validation r c =
    done (record c { validations = Dict.insert (validation_key r) r c.validations })

unfoldable pub validation : ContentId → String → String → MemoryCatalog → Option ValidationResult
validation content_id validator version c = lookup (content_id, (validator, version)) c.validations

-- By validator, version and time.
abbrev pub validation_leb : ValidationResult → ValidationResult → Bool
validation_leb a b =
    if a.validator == b.validator
    then if a.validator_version == b.validator_version
      then leb a.checked_at b.checked_at
      else str_leb a.validator_version b.validator_version
    else str_leb a.validator b.validator

unfoldable pub validations_for : ContentId → MemoryCatalog → List ValidationResult
validations_for content_id c =
    sort validation_leb (filter (λ r. r.content_id == content_id) (values c.validations))

unfoldable pub record_source_snapshot : SourceSnapshot → MemoryCatalog → Outcome
record_source_snapshot s c =
    if Dict.has s.snapshot_id c.snapshots
    then fail Fault.snapshot_exists c
    else done (record c { snapshots = Dict.insert s.snapshot_id s c.snapshots })

abbrev pub snapshot_stamp : SourceSnapshot → ℕ × String
snapshot_stamp s = (s.observed_at, s.snapshot_id)

abbrev pub snapshot_leb : SourceSnapshot → SourceSnapshot → Bool
snapshot_leb a b = stamp_leb (snapshot_stamp a) (snapshot_stamp b)

-- The snapshots of a source, the latest first.
unfoldable pub ordered_snapshots : SourceId → MemoryCatalog → List SourceSnapshot
ordered_snapshots source_id c =
    sort (flip snapshot_leb) (filter (λ s. s.source_id == source_id) (values c.snapshots))

-- `limit` is `None` or an integer, which must not be negative.
unfoldable pub source_snapshots_for :
    SourceId → Option ℤ → MemoryCatalog → Result (List SourceSnapshot)
unfolding ordered_snapshots
source_snapshots_for source_id none c = ok (ordered_snapshots source_id c)
source_snapshots_for source_id (some (pos n)) c = ok (take n (ordered_snapshots source_id c))
source_snapshots_for source_id (some (negsuc n)) c = raise Fault.negative_limit

-- `snapshots[0] if snapshots else None`
abbrev first_snapshot : Result (List SourceSnapshot) → Option SourceSnapshot
first_snapshot (ok (s ∷ rest)) = some s
first_snapshot _ = none

unfoldable pub latest_source_snapshot : SourceId → MemoryCatalog → Option SourceSnapshot
unfolding source_snapshots_for
latest_source_snapshot source_id c =
    first_snapshot (source_snapshots_for source_id (some (pos 1)) c)

-- `replace(record.with_specifications(existing.specifications), created_at=existing.created_at)`: both
-- of the records that are made here are checked.
unfoldable pub merge_datasets :
    (Json → String) → DatasetRecord → DatasetRecord → Result DatasetRecord
unfolding with_specifications canonical_dataset
merge_datasets digest r existing = do
  merged ← with_specifications digest r existing.specifications
  canonical_dataset digest (record merged { created_at = existing.created_at })

-- A dataset that is recorded again keeps its time and gains the new specifications.
unfoldable pub record_dataset : (Json → String) → DatasetRecord → MemoryCatalog → Outcome
unfolding merge_datasets
record_dataset digest r c = elim (lookup r.dataset_id c.datasets) [
  | none ↦ done (record c { datasets = Dict.insert r.dataset_id r c.datasets })
  | some existing ↦
      if not (existing.content_identity == r.content_identity)
      then fail Fault.dataset_conflict c
      else if not (members_beq existing.members r.members)
      then fail Fault.dataset_conflict c
      else elim (merge_datasets digest r existing) [
        | raise f ↦ fail f c
        | ok merged ↦ done (record c { datasets = Dict.insert r.dataset_id merged c.datasets })
      ]
]
