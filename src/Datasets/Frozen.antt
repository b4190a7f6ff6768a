-- ===== src/Datasets/Frozen.antt =====
-- What a manifest of `resolve_dataset` promises about its members.
use mathlib.Core.Path.{subst}
use efloud.Prelude.{ℕ, String, Bool, List, [], ◌∷◌, map, ◌≡◌, ap, ◌∙◌, arith, inl, inr}
use efloud.Prelude.{
  if-true, if-false, ◌==◌, string_eq, pair_eq, contains_iff, Distinct, Member, Member-map,
  Member-map_of, Bool-cases, beq_refl,
}
use efloud.Prelude.Sort.{Sorted}
use efloud.Errors.{ok}
use efloud.Json.{Json}
use efloud.Models.{ArtifactObservation}
use efloud.Records.{DatasetMemberRecord}
use efloud.Catalog.State.{MemoryCatalog}
use efloud.Datasets.Snapshots.{DatasetRepository, TreeEntry}
use efloud.Datasets.Reader.{catalog_reader, catalog_reader-Returns, IsRecorded}
use efloud.Datasets.Resolve.{
  DatasetSelection, DatasetDefinition, DatasetManifest, member_of, resolve_dataset,
  dataset_artifact,
}
use efloud.Datasets.Members.{member_key, member_leb, resolve_dataset-IsResolution, select-Returns}

dataset_artifact-Member :
    (ms : List DatasetMemberRecord) (m : DatasetMemberRecord)
    → Distinct (map member_key ms)
    → Member m ms
    → dataset_artifact m.artifact_key ms ≡ ok m
unfolding dataset_artifact
dataset_artifact-Member [] m u n = absurd (n tt)
dataset_artifact-Member (x ∷ xs) m u n = elim n [
  | inl e ↦ rw e (if-true _ _ _ (beq_refl x.artifact_key))
  | inr k ↦
      let there =
        (contains_iff (map member_key xs) m.artifact_key).1 (Member-map_of member_key m xs k) in
      if-false (x.artifact_key == m.artifact_key) (ok x) (dataset_artifact m.artifact_key xs)
        (elim (Bool-cases (x.artifact_key == m.artifact_key)) [
          | inr e ↦ e
          | inl e ↦
              absurd (ground (arith, u.0, there, string_eq.beq_iff x.artifact_key m.artifact_key))
        ])
      ∙ dataset_artifact-Member xs m u.1 k
]

module _ (equal : ArtifactObservation → ArtifactObservation → Bool) (str_json : Json → String)
    (digest : Json → String) where
  -- If a dataset resolves in a catalog, its members are in the order of their artifact keys, no
  -- artifact is there twice, and each member is an observation that the catalog holds, with its
  -- content, under the role of one of the selections.
  pub resolve_dataset-Recorded :
      (tree_entries : String → List TreeEntry) (c : MemoryCatalog) (d : DatasetDefinition)
      (created_at : ℕ) (m : DatasetManifest)
      → resolve_dataset equal str_json digest (catalog_reader tree_entries c) d created_at ≡ ok m
      → Distinct (map member_key m.members)
        × Sorted member_leb m.members
        × ((x : DatasetMemberRecord)
            → Member x m.members
            → (s : DatasetSelection) × (o : ArtifactObservation) × Member s d.selections
              × IsRecorded c o
              × (x ≡ member_of (o, s.role)))
  resolve_dataset-Recorded tree_entries c d created_at m h =
      let repository = catalog_reader tree_entries c in
      let (resolved, r) =
        resolve_dataset-IsResolution equal str_json digest repository d created_at m h in
      (
        r.apart,
        r.ordered,
        λ x n.
            let (y, k, e) = Member-map member_of x resolved (subst (Member x) r.members n) in
            let (s, sel, i, f, j) = r.selected y k in
            let (known, role) =
              select-Returns equal str_json digest repository {P = IsRecorded c}
                (catalog_reader-Returns tree_entries c) s sel y f j in
            (s, y.0, i, known, e ∙ ap (λ z. member_of (y.0, z)) role),
      )

  module _ (repository : DatasetRepository) where
    -- Every member of a resolved dataset is found under its artifact key.
    pub dataset_artifact-resolve :
        (d : DatasetDefinition) (created_at : ℕ) (m : DatasetManifest) (x : DatasetMemberRecord)
        → resolve_dataset equal str_json digest repository d created_at ≡ ok m
        → Member x m.members
        → dataset_artifact x.artifact_key m.members ≡ ok x
    dataset_artifact-resolve d created_at m x h n =
        let (resolved, r) =
          resolve_dataset-IsResolution equal str_json digest repository d created_at m h in
        dataset_artifact-Member m.members x r.apart n
