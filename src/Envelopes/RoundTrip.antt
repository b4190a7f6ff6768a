-- ===== src/Envelopes/RoundTrip.antt =====
-- A history written by `source_definition_history_payload`, and the decoder of metadata_envelopes.py.
use efloud.Prelude.{String, List, [], ◌∷◌, map, ◌≡◌, refl, inl, inr}
use efloud.Prelude.{string_eq, beq_refl, All, Member, All-of, All-at, Distinct}
use efloud.Prelude.Sort.{sort, Sorted, Member-sort, sort-Sorted, IsOrder-key, str_leb-IsOrder}
use efloud.Prelude.Dict
use efloud.Prelude.Dict.{values, lookup}
use efloud.Prelude.Keyed.{
  insert-Keyed, index-Keyed, index-Distinct, keys-eq-map, values-index, lookup-index,
  Member-values-index, index,
}
use efloud.Prelude.Indexed.{sort-Distinct, sort_of_Sorted}
use efloud.Errors.{ok}
use efloud.Json.{Json, JsonObject, elements-array}
use efloud.Models.{SourceId, SourceDefinitionRevision}
use efloud.Envelopes.{
  revision_key, revision_leb, source_revision_payload, source_definition_revision_id,
  decode_revision, decode_revisions, select_current, merge_revision,
  decode_source_definition_history, source_definition_history_payload,
}

revision_leb-Sorted :
    (rs : List SourceDefinitionRevision) → Sorted revision_leb (sort revision_leb rs)
revision_leb-Sorted rs = sort-Sorted (IsOrder-key str_leb-IsOrder revision_key) rs

-- On a sorted list of distinct revisions the last step of the decoder only selects.
select_current_lem :
    (current : SourceDefinitionRevision) (rs : List SourceDefinitionRevision)
    → Distinct (map revision_key rs)
    → Sorted revision_leb rs
    → Member current rs
    → select_current current.revision_id rs
      ≡ ok (record {
        definition = current.definition;
        revision_id = current.revision_id;
        revisions = rs;
      })
unfolding select_current
select_current_lem current rs u s m = rw (
  lookup-index revision_key current rs u m,
  values-index revision_key rs u,
  sort_of_Sorted revision_leb rs s,
  select_current,
)

module _ (digest : Json → String) (source_id : SourceId) where
  -- The identifier of the revision is the one computed from its definition.
  abbrev pub IsAuthentic : SourceDefinitionRevision → Type 0
  IsAuthentic r = r.revision_id ≡ source_definition_revision_id digest source_id r.definition

  decode_revision-payload :
      (r : SourceDefinitionRevision)
      → IsAuthentic r
      → decode_revision digest source_id (source_revision_payload r) ≡ ok r
  unfolding decode_revision
  decode_revision-payload r h = rw (← h) (rw (beq_refl r.revision_id))

  decode_revisions-map :
      (rs : List SourceDefinitionRevision)
      → All IsAuthentic rs
      → decode_revisions digest source_id (map source_revision_payload rs) ≡ ok rs
  unfolding decode_revisions
  decode_revisions-map [] h = refl
  decode_revisions-map (r ∷ rs) h = rw (decode_revision-payload r h.0, decode_revisions-map rs h.1)

  module _ (definition : JsonObject) (existing : List SourceDefinitionRevision) where
    abbrev current : SourceDefinitionRevision
    current = record {
      revision_id = source_definition_revision_id digest source_id definition;
      definition = definition;
    }

    -- The revisions that the payload holds, in the order of their identifiers.
    abbrev pub merged : List SourceDefinitionRevision
    merged = sort revision_leb (values (merge_revision digest source_id definition existing))

    merged-IsAuthentic : All IsAuthentic existing → All IsAuthentic merged
    unfolding merge_revision
    merged-IsAuthentic h = All-of IsAuthentic merged λ r m.
        elim (Dict.Member-values-insert r current.revision_id current (index revision_key existing)
          ((Member-sort revision_leb r _).0 m)) [
            | inl q ↦ rw q refl
            | inr old ↦
                All-at IsAuthentic r existing h (Member-values-index revision_key r existing old)
          ]

    merged-Distinct : Distinct (map revision_key merged)
    unfolding merge_revision
    merged-Distinct =
        sort-Distinct revision_key revision_leb
          (values (merge_revision digest source_id definition existing))
          (rw
            (← keys-eq-map revision_key (merge_revision digest source_id definition existing) (
              insert-Keyed revision_key current (index revision_key existing)
                (index-Keyed revision_key existing)))
            (Dict.insert-Distinct current.revision_id current (index revision_key existing)
              (index-Distinct revision_key existing)))

    current-Member : Member current merged
    unfolding merge_revision
    current-Member = (Member-sort revision_leb current _).1 (
        Dict.Member-values_of_lookup current.revision_id current _
          (Dict.lookup-insert_self current.revision_id current (index revision_key existing)))

    -- Whatever authentic revisions a source already has, the history written for a new definition
    -- decodes to that definition, its identifier, and the merged revisions in order.
    pub decode-history_payload :
        All IsAuthentic existing
        → decode_source_definition_history digest source_id
            (source_definition_history_payload digest source_id definition existing)
          ≡ ok (record {
            definition = definition;
            revision_id = source_definition_revision_id digest source_id definition;
            revisions = merged;
          })
    unfolding decode_source_definition_history source_definition_history_payload
    decode-history_payload h = rw (
      elements-array (map source_revision_payload merged),
      decode_revisions-map merged (merged-IsAuthentic h),
      select_current_lem current merged merged-Distinct
          (revision_leb-Sorted (values (merge_revision digest source_id definition existing)))
          current-Member,
    )
