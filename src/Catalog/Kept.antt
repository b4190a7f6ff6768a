-- ===== src/Catalog/Kept.antt =====
-- When a later state of a catalog keeps the validations, snapshots and datasets of an earlier one.
use mathlib.Core.Option.{some-injective}
use efloud.Prelude.{
  String, List, [], ◌∷◌, ◌++◌, Option, some, true, ◌≡◌, refl, sym, ap, arith, inl, inr, ◌∙◌,
}
use efloud.Prelude.{Eq, ◌==◌, string_eq, option_eq, pair_eq, Bool-cases}
use efloud.Prelude.Dict
use efloud.Prelude.Dict.{lookup, lookup-insert}
use efloud.Errors.{ok, Result-cases, >>=-eq-ok, ok_injective}
use efloud.Json.{Json, JsonObject}
use efloud.Models.{ContentId, SourceId, SnapshotId, ValidationResult, SourceSnapshot}
use efloud.Envelopes.{decode_dataset_specifications}
use efloud.Records.{
  DatasetMemberRecord, DatasetRecord, member_beq, members_beq, canonical_dataset,
  with_specifications, source_record,
}
use efloud.Catalog.State.{MemoryCatalog}
use efloud.Catalog.Runs.{register_source}
use efloud.Catalog.Snapshots.{
  validation_key, record_validation, record_source_snapshot, record_dataset, merge_datasets,
}
use efloud.Catalog.Stored.{record_dataset_cases}
use efloud.Catalog.Frames.{SameStored}

-- A snapshot stays as it is. A dataset keeps its identity, its time and its members, and may gain
-- specifications. A validation may be replaced by another under its key.
pub record ExtendsStored (c d : MemoryCatalog) : Type 0 where
  pub snapshot_kept :
      (id : SnapshotId) (s : SourceSnapshot)
      → lookup id c.snapshots ≡ some s
      → lookup id d.snapshots ≡ some s
  pub dataset_kept :
      (id : String) (r : DatasetRecord)
      → lookup id c.datasets ≡ some r
      → (q : DatasetRecord) × (lookup id d.datasets ≡ some q)
        × (q.content_identity ≡ r.content_identity)
        × (q.created_at ≡ r.created_at)
        × (q.members ≡ r.members)
  pub validation_known :
      (key : ContentId × (String × String)) (r : ValidationResult)
      → lookup key c.validations ≡ some r
      → (q : ValidationResult) × (lookup key d.validations ≡ some q)

pub ExtendsStored-refl : (c : MemoryCatalog) → ExtendsStored c c
ExtendsStored-refl c = record {
  snapshot_kept = λ id s h. h;
  dataset_kept = λ id r h. (r, h, refl, refl, refl);
  validation_known = λ key r h. (r, h);
}

module _ {c d e : MemoryCatalog} where
  pub ExtendsStored-trans : ExtendsStored c d → ExtendsStored d e → ExtendsStored c e
  ExtendsStored-trans p q = record {
    snapshot_kept = λ id s h. q.snapshot_kept id s (p.snapshot_kept id s h);
    dataset_kept = λ id r h.
        let (s, hs, a, b, m) = p.dataset_kept id r h in
        let (t, ht, a', b', m') = q.dataset_kept id s hs in (t, ht, a' ∙ a, b' ∙ b, m' ∙ m);
    validation_known =
        λ key r h. let (s, hs) = p.validation_known key r h in q.validation_known key s hs;
  }

module _ {c d : MemoryCatalog} where
  pub ExtendsStored-of_same : SameStored c d → ExtendsStored c d
  ExtendsStored-of_same s = record {
    snapshot_kept = λ id r h. rw (← s.snapshots) h;
    dataset_kept = λ id r h. (r, rw (← s.datasets) h, refl, refl, refl);
    validation_known = λ key r h. (r, rw (← s.validations) h);
  }

abbrev role_eq : Eq (Option String)
role_eq = option_eq

member_beq-eq : (a b : DatasetMemberRecord) → member_beq a b ≡ true → a ≡ b
member_beq-eq a b h = ground (
  arith,
  string_eq.beq_iff a.artifact_key b.artifact_key,
  string_eq.beq_iff a.observation_id b.observation_id,
  string_eq.beq_iff a.content_id b.content_id,
  role_eq.beq_iff a.role b.role,
)

members_beq-eq : (xs ys : List DatasetMemberRecord) → members_beq xs ys ≡ true → xs ≡ ys
members_beq-eq [] [] h = refl
members_beq-eq [] (y ∷ ys) h = ground arith
members_beq-eq (x ∷ xs) [] h = ground arith
members_beq-eq (x ∷ xs) (y ∷ ys) h =
    rw (member_beq-eq x y (ground arith), members_beq-eq xs ys (ground arith)) refl

module _ (digest : Json → String) where
  -- What a merge of specifications leaves as it is.
  canonical-fixed :
      (r d : DatasetRecord)
      → canonical_dataset digest r ≡ ok d
      → (d.content_identity ≡ r.content_identity)
        × (d.created_at ≡ r.created_at)
        × (d.members ≡ r.members)
  unfolding canonical_dataset
  canonical-fixed r d h =
      let (specs, read, made) = >>=-eq-ok (decode_dataset_specifications digest r.definition) _ h in
      let e = sym (ok_injective made) in
      (
        ap (λ (z : DatasetRecord). z.content_identity) e,
        ap (λ (z : DatasetRecord). z.created_at) e,
        ap (λ (z : DatasetRecord). z.members) e,
      )

  -- What the merge of a dataset with the one recorded before leaves as it is.
  merge_datasets-fixed :
      (r old d : DatasetRecord)
      → merge_datasets digest r old ≡ ok d
      → (d.content_identity ≡ r.content_identity)
        × (d.created_at ≡ old.created_at)
        × (d.members ≡ r.members)
  unfolding merge_datasets with_specifications
  merge_datasets-fixed r old d h =
      let (merged, e, g) = >>=-eq-ok (with_specifications digest r old.specifications) _ h in
      let (a, b, m) =
        canonical-fixed (record r { specifications = r.specifications ++ old.specifications })
          merged e in
      let (a', b', m') = canonical-fixed (record merged { created_at = old.created_at }) d g in
      (a' ∙ a, b', m' ∙ m)

  module _ (c : MemoryCatalog) where
    pub register_source-Kept :
        (id : SourceId) (d : JsonObject) → ExtendsStored c (register_source digest id d c).1
    unfolding register_source
    register_source-Kept id d = elim (Result-cases (source_record digest id d)) [
      | inl (f, bad) ↦ rw (bad, register_source) (ExtendsStored-refl c)
      | inr (s, good) ↦
          rw (good, register_source)
            (record {
              snapshot_kept = λ id s h. h;
              dataset_kept = λ id r h. (r, h, refl, refl, refl);
              validation_known = λ key r h. (r, h);
            })
    ]

    pub record_validation-Kept : (r : ValidationResult) → ExtendsStored c (record_validation r c).1
    unfolding record_validation
    record_validation-Kept r = record {
      snapshot_kept = λ id s h. h;
      dataset_kept = λ id s h. (s, h, refl, refl, refl);
      validation_known = λ key s h. elim (Bool-cases (key == validation_key r)) [
        | inl e ↦ (r, ground (arith, lookup-insert key (validation_key r) r c.validations))
        | inr e ↦ (s, ground (arith, lookup-insert key (validation_key r) r c.validations))
      ];
    }

    pub record_source_snapshot-Kept :
        (s : SourceSnapshot) → ExtendsStored c (record_source_snapshot s c).1
    unfolding record_source_snapshot
    record_source_snapshot-Kept s = elim (Bool-cases (Dict.has s.snapshot_id c.snapshots)) [
      | inl old ↦ rw old (ExtendsStored-refl c)
      | inr fresh ↦ rw fresh (record {
        snapshot_kept =
            λ id r h. rw lookup-insert (ground (arith, string_eq.beq_iff id s.snapshot_id));
        dataset_kept = λ id r h. (r, h, refl, refl, refl);
        validation_known = λ key r h. (r, h);
      })
    ]

    pub record_dataset-Kept : (r : DatasetRecord) → ExtendsStored c (record_dataset digest r c).1
    record_dataset-Kept r = elim (record_dataset_cases digest r c) [
      | inl (fresh, e) ↦ rw e (record {
        snapshot_kept = λ id s h. h;
        dataset_kept = λ id s h. (
          s,
          rw lookup-insert (ground (arith, string_eq.beq_iff id r.dataset_id)),
          refl,
          refl,
          refl,
        );
        validation_known = λ key s h. (s, h);
      })
      | inr (inl (f, e)) ↦ rw e (ExtendsStored-refl c)
      | inr (inr (old, new, found, same, alike, good, e)) ↦ rw e (record {
        snapshot_kept = λ id s h. h;
        dataset_kept = λ id s h. elim (Bool-cases (id == r.dataset_id)) [
          | inl q ↦
              let (identity, time, members) = merge_datasets-fixed r old new good in
              let known : old ≡ s = some-injective _ _ (
                sym found
                ∙ ap (λ k. lookup k c.datasets) (sym ((string_eq.beq_iff id r.dataset_id).0 q))
                ∙ h) in
              (
                new,
                rw (lookup-insert, q) refl,
                identity ∙ sym same ∙ ap (λ (z : DatasetRecord). z.content_identity) known,
                time ∙ ap (λ (z : DatasetRecord). z.created_at) known,
                members
                    ∙ sym (members_beq-eq old.members r.members alike)
                    ∙ ap (λ (z : DatasetRecord). z.members) known,
              )
          | inr q ↦ (s, rw (lookup-insert, q) h, refl, refl, refl)
        ];
        validation_known = λ key s h. (s, h);
      })
    ]
