-- ===== src/Catalog/Stored.antt =====
-- Sources, validations, snapshots and datasets: each record stands once, under its own key.
use mathlib.Core.Path.{subst}
use efloud.Prelude.{
  ◌++◌, String, true, List, none, some, ◌≡◌, refl, sym, arith, ◌⊎◌, inl, inr, ap, ◌∙◌,
}
use efloud.Prelude.{◌==◌, string_eq, pair_eq, Distinct, Bool-cases, Option-cases}
use efloud.Prelude.Dict
use efloud.Prelude.Dict.{keys, lookup}
use efloud.Prelude.Keyed.{Keyed, insert-Keyed}
use efloud.Errors.{Fault, ok, Result-cases, >>=-eq-ok, ok_injective}
use efloud.Json.{Json, JsonObject}
use efloud.Models.{SourceId, ValidationResult, SourceSnapshot, DatasetSpecification}
use efloud.Envelopes.{decode_source_definition_history, decode_dataset_specifications}
use efloud.Records.{
  SourceRecord, DatasetRecord, source_record, canonical_dataset, with_specifications, members_beq,
}
use efloud.Catalog.State.{MemoryCatalog, done, fail, empty}
use efloud.Catalog.Runs.{register_source}
use efloud.Catalog.Snapshots.{
  validation_key, merge_datasets, record_validation, record_source_snapshot, record_dataset,
}

abbrev pub source_key : SourceRecord → SourceId
source_key s = s.source_id

abbrev pub snapshot_key : SourceSnapshot → String
snapshot_key s = s.snapshot_id

abbrev pub dataset_key : DatasetRecord → String
dataset_key d = d.dataset_id

pub record IsStored (c : MemoryCatalog) : Type 0 where
  pub sources_keyed : Keyed source_key c.sources
  pub sources_distinct : Distinct (keys c.sources)
  pub validations_keyed : Keyed validation_key c.validations
  pub validations_distinct : Distinct (keys c.validations)
  pub snapshots_keyed : Keyed snapshot_key c.snapshots
  pub snapshots_distinct : Distinct (keys c.snapshots)
  pub datasets_keyed : Keyed dataset_key c.datasets
  pub datasets_distinct : Distinct (keys c.datasets)

pub empty-IsStored : IsStored empty
empty-IsStored = record {
  sources_keyed = tt;
  sources_distinct = tt;
  validations_keyed = tt;
  validations_distinct = tt;
  snapshots_keyed = tt;
  snapshots_distinct = tt;
  datasets_keyed = tt;
  datasets_distinct = tt;
}

module _ (digest : Json → String) where
  source_id-source_record :
      (id : SourceId) (d : JsonObject) (s : SourceRecord)
      → source_record digest id d ≡ ok s
      → id ≡ s.source_id
  unfolding source_record
  source_id-source_record id d s h =
      let (history, read, made) = >>=-eq-ok (decode_source_definition_history digest id d) _ h in
      ap source_key (ok_injective made)

  dataset_id-canonical :
      (r d : DatasetRecord) → canonical_dataset digest r ≡ ok d → r.dataset_id ≡ d.dataset_id
  unfolding canonical_dataset
  dataset_id-canonical r d h =
      let (specs, read, made) = >>=-eq-ok (decode_dataset_specifications digest r.definition) _ h in
      ap dataset_key (ok_injective made)

  pub dataset_id-with_specifications :
      (r d : DatasetRecord) (more : List DatasetSpecification)
      → with_specifications digest r more ≡ ok d
      → r.dataset_id ≡ d.dataset_id
  unfolding with_specifications
  dataset_id-with_specifications r d more h =
      dataset_id-canonical (record r { specifications = r.specifications ++ more }) d h

  dataset_id-merge_datasets :
      (r old d : DatasetRecord) → merge_datasets digest r old ≡ ok d → r.dataset_id ≡ d.dataset_id
  unfolding merge_datasets
  dataset_id-merge_datasets r old d h =
      let (merged, e, g) = >>=-eq-ok (with_specifications digest r old.specifications) _ h in
      dataset_id-with_specifications r merged old.specifications e
      ∙ dataset_id-canonical (record merged { created_at = old.created_at }) d g

  -- A dataset is new, or is refused, or is merged into the record that is there.
  pub record_dataset_cases :
      (r : DatasetRecord) (c : MemoryCatalog)
      → ((lookup r.dataset_id c.datasets ≡ none)
          × (record_dataset digest r c
              ≡ done (record c { datasets = Dict.insert r.dataset_id r c.datasets })))
        ⊎ ((f : Fault) × (record_dataset digest r c ≡ fail f c))
        ⊎ ((old : DatasetRecord) × (new : DatasetRecord) × (lookup r.dataset_id c.datasets
              ≡ some old)
            × (old.content_identity ≡ r.content_identity)
            × (members_beq old.members r.members ≡ true)
            × (merge_datasets digest r old ≡ ok new)
            × (record_dataset digest r c
                ≡ done (record c { datasets = Dict.insert r.dataset_id new c.datasets })))
  unfolding record_dataset
  record_dataset_cases r c = elim (Option-cases (lookup r.dataset_id c.datasets)) [
    | inl fresh ↦ inl (fresh, ground arith)
    | inr (old, found) ↦ elim (Bool-cases (old.content_identity == r.content_identity)) [
      | inr other ↦ inr (inl (Fault.dataset_conflict, ground arith))
      | inl same ↦ elim (Bool-cases (members_beq old.members r.members)) [
        | inr other ↦ inr (inl (Fault.dataset_conflict, ground arith))
        | inl alike ↦ elim (Result-cases (merge_datasets digest r old)) [
          | inl (f, bad) ↦ inr (inl (f, ground arith))
          | inr (new, good) ↦ inr (
              inr (
                old,
                new,
                found,
                (string_eq.beq_iff old.content_identity r.content_identity).0 same,
                alike,
                good,
                ground arith,
              ))
        ]
      ]
    ]
  ]

  module _ (c : MemoryCatalog) (l : IsStored c) where
    pub register_source-IsStored :
        (id : SourceId) (d : JsonObject) → IsStored (register_source digest id d c).1
    unfolding register_source
    register_source-IsStored id d = elim (Result-cases (source_record digest id d)) [
      | inl (f, bad) ↦ rw (bad, register_source) l
      | inr (s, good) ↦
          rw (good, register_source)
            (record {
              sources_keyed =
                  subst (λ (i : SourceId). Keyed source_key (Dict.insert i s c.sources))
                    (sym (source_id-source_record id d s good))
                    (insert-Keyed source_key s c.sources l.sources_keyed);
              sources_distinct = Dict.insert-Distinct id s c.sources l.sources_distinct;
              validations_keyed = l.validations_keyed;
              validations_distinct = l.validations_distinct;
              snapshots_keyed = l.snapshots_keyed;
              snapshots_distinct = l.snapshots_distinct;
              datasets_keyed = l.datasets_keyed;
              datasets_distinct = l.datasets_distinct;
            })
    ]

    record_whole_dataset-IsStored :
        (id : String) (d : DatasetRecord)
        → id ≡ d.dataset_id
        → IsStored (record c { datasets = Dict.insert id d c.datasets })
    record_whole_dataset-IsStored id d same = record {
      sources_keyed = l.sources_keyed;
      sources_distinct = l.sources_distinct;
      validations_keyed = l.validations_keyed;
      validations_distinct = l.validations_distinct;
      snapshots_keyed = l.snapshots_keyed;
      snapshots_distinct = l.snapshots_distinct;
      datasets_keyed =
          subst (λ (i : String). Keyed dataset_key (Dict.insert i d c.datasets)) (sym same)
            (insert-Keyed dataset_key d c.datasets l.datasets_keyed);
      datasets_distinct = Dict.insert-Distinct id d c.datasets l.datasets_distinct;
    }

    pub record_dataset-IsStored : (r : DatasetRecord) → IsStored (record_dataset digest r c).1
    record_dataset-IsStored r = elim (record_dataset_cases r c) [
      | inl (fresh, e) ↦ rw e (record_whole_dataset-IsStored r.dataset_id r refl)
      | inr (inl (f, e)) ↦ rw e l
      | inr (inr (old, new, found, same, alike, good, e)) ↦ rw e (
          record_whole_dataset-IsStored r.dataset_id new (dataset_id-merge_datasets r old new good))
    ]

module _ (c : MemoryCatalog) (l : IsStored c) where
  pub record_validation-IsStored : (r : ValidationResult) → IsStored (record_validation r c).1
  unfolding record_validation
  record_validation-IsStored r = record {
    sources_keyed = l.sources_keyed;
    sources_distinct = l.sources_distinct;
    validations_keyed = insert-Keyed validation_key r c.validations l.validations_keyed;
    validations_distinct =
        Dict.insert-Distinct (validation_key r) r c.validations l.validations_distinct;
    snapshots_keyed = l.snapshots_keyed;
    snapshots_distinct = l.snapshots_distinct;
    datasets_keyed = l.datasets_keyed;
    datasets_distinct = l.datasets_distinct;
  }

  pub record_source_snapshot-IsStored :
      (s : SourceSnapshot) → IsStored (record_source_snapshot s c).1
  unfolding record_source_snapshot
  record_source_snapshot-IsStored s = elim (Bool-cases (Dict.has s.snapshot_id c.snapshots)) [
    | inl old ↦ rw old l
    | inr fresh ↦ rw fresh (record {
      sources_keyed = l.sources_keyed;
      sources_distinct = l.sources_distinct;
      validations_keyed = l.validations_keyed;
      validations_distinct = l.validations_distinct;
      snapshots_keyed = insert-Keyed snapshot_key s c.snapshots l.snapshots_keyed;
      snapshots_distinct = Dict.insert-Distinct s.snapshot_id s c.snapshots l.snapshots_distinct;
      datasets_keyed = l.datasets_keyed;
      datasets_distinct = l.datasets_distinct;
    })
  ]
