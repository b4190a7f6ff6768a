-- ===== src/Envelopes/Integrity.antt =====
-- The identifiers in what the decoders of metadata_envelopes.py accept.
use mathlib.Core.Path.{subst}
use efloud.Prelude.{String, List, [], ◌∷◌, ◌≡◌, refl, sym, ap, ◌∙◌, inl, inr, arith}
use efloud.Prelude.{string_eq, All, Member, All-of, All-at, Option-cases, Bool-cases}
use efloud.Prelude.Sort.{Member-sort}
use efloud.Prelude.Dict
use efloud.Prelude.Dict.{values, lookup}
use efloud.Prelude.Keyed.{Member-values-index, index}
use efloud.Errors.{ok, ◌>>=◌, >>=-eq-ok, ok_injective}
use efloud.Json.{Json, JsonObject, get, is_one, string_or_none, list_or_none}
use efloud.Models.{SourceId, SourceDefinitionRevision}
use efloud.Envelopes.{
  History, revision_key, revision_leb, source_definition_revision_id, history_marker,
  decode_revision, decode_revisions, select_current, decode_source_definition_history,
}
use efloud.Envelopes.RoundTrip.{IsAuthentic}

module _ (digest : Json → String) (source_id : SourceId) where
  decode_revision-IsAuthentic :
      (raw : Json) (r : SourceDefinitionRevision)
      → decode_revision digest source_id raw ≡ ok r
      → IsAuthentic digest source_id r
  unfolding decode_revision
  decode_revision-IsAuthentic raw r h = grind (arith, string_eq.beq_iff)

  decode_revisions-IsAuthentic :
      (raws : List Json) (rs : List SourceDefinitionRevision)
      → decode_revisions digest source_id raws ≡ ok rs
      → All (IsAuthentic digest source_id) rs
  unfolding decode_revisions
  decode_revisions-IsAuthentic [] rs h =
      subst (All (IsAuthentic digest source_id)) (ok_injective h) tt
  decode_revisions-IsAuthentic (raw ∷ raws) rs h =
      let (r, first, rest) = >>=-eq-ok (decode_revision digest source_id raw) _ h in
      let (more, read, last) = >>=-eq-ok (decode_revisions digest source_id raws) _ rest in
      subst (All (IsAuthentic digest source_id)) (ok_injective last)
        (decode_revision-IsAuthentic raw r first, decode_revisions-IsAuthentic raws more read)

-- The current revision is one of those that were read, and so are all that are returned.
abbrev IsSelection : List SourceDefinitionRevision → History → Type 0
IsSelection rs h =
    (r : SourceDefinitionRevision) × Member r rs
    × (h.definition ≡ r.definition)
    × (h.revision_id ≡ r.revision_id)
    × ((x : SourceDefinitionRevision) → Member x h.revisions → Member x rs)

select_current-IsSelection :
    (raw : String) (rs : List SourceDefinitionRevision) (h : History)
    → select_current raw rs ≡ ok h
    → IsSelection rs h
unfolding select_current
select_current-IsSelection raw rs h e = elim (Option-cases (lookup raw (index revision_key rs))) [
  | inl missing ↦ absurd (ground arith)
  | inr (r, found) ↦ subst (IsSelection rs) (ok_injective (rw (found, select_current) at e)) (
    r,
    Member-values-index revision_key r rs
        (Dict.Member-values_of_lookup raw r (index revision_key rs) found),
    refl,
    refl,
    λ x m. Member-values-index revision_key x rs ((Member-sort revision_leb x _).0 m),
  )
]

module _ (digest : Json → String) (source_id : SourceId) where
  -- The identifier is that of the current definition, and every revision is authentic.
  pub record IsAuthenticHistory (h : History) : Type 0 where
    pub current : h.revision_id ≡ source_definition_revision_id digest source_id h.definition
    pub all_revisions : All (IsAuthentic digest source_id) h.revisions

  IsSelection-IsAuthentic :
      (rs : List SourceDefinitionRevision) (h : History)
      → All (IsAuthentic digest source_id) rs
      → IsSelection rs h
      → IsAuthenticHistory h
  IsSelection-IsAuthentic rs h good (r, m, same, id, old) = record {
    current =
        id
        ∙ All-at (IsAuthentic digest source_id) r rs good m
        ∙ ap (source_definition_revision_id digest source_id) (sym same);
    all_revisions =
        All-of (IsAuthentic digest source_id) h.revisions
          (λ x k. All-at (IsAuthentic digest source_id) x rs good (old x k));
  }

  read_history :
      (raw : String) (raws : List Json) (h : History)
      → (decode_revisions digest source_id raws >>= select_current raw) ≡ ok h
      → IsAuthenticHistory h
  read_history raw raws h e =
      let (rs, read, chosen) = >>=-eq-ok (decode_revisions digest source_id raws) _ e in
      IsSelection-IsAuthentic rs h (decode_revisions-IsAuthentic digest source_id raws rs read)
        (select_current-IsSelection raw rs h chosen)

  -- Whatever object is decoded, with the marker or without it: if the decoder returns, each
  -- revision has the identifier computed from its definition, and so has the current one.
  pub decode-IsAuthentic :
      (payload : JsonObject) (h : History)
      → decode_source_definition_history digest source_id payload ≡ ok h
      → IsAuthenticHistory h
  unfolding decode_source_definition_history
  decode-IsAuthentic payload h e = elim (Bool-cases (is_one (get history_marker payload))) [
    | inr plain ↦
        subst IsAuthenticHistory (ok_injective (rw (plain, decode_source_definition_history) at e))
          (record { current = refl; all_revisions = (refl, tt) })
    | inl marked ↦ elim (Option-cases (list_or_none (get "revisions" payload))) [
      | inl missing ↦ absurd (ground arith)
      | inr (raws, listed) ↦
          elim (Option-cases (string_or_none (get "current_revision_id" payload))) [
            | inl missing ↦ absurd (ground arith)
            | inr (raw, named) ↦ read_history raw raws h (ground arith)
          ]
    ]
  ]
