-- ===== src/Tests/Metadata.antt =====
-- Envelopes: a history with two revisions.
use efloud.Prelude.{[], ◌∷◌, ◌≡◌, refl}
use efloud.Errors.{ok}
use efloud.Models.{SourceDefinitionRevision}
use efloud.Envelopes.{
  History, source_definition_revision_id, source_definition_history_payload,
  decode_source_definition_history,
}
use efloud.Envelopes.RoundTrip.{merged, decode-history_payload}
use efloud.Envelopes.Integrity.{IsAuthenticHistory, decode-IsAuthentic}
use efloud.Tests.Sample.{render, http_definition, rest_definition}

abbrev first_revision : SourceDefinitionRevision
first_revision = record {
  revision_id = source_definition_revision_id render "s" http_definition;
  definition = http_definition;
}

abbrev second_history : History
second_history = record {
  definition = rest_definition;
  revision_id = source_definition_revision_id render "s" rest_definition;
  revisions = merged render "s" rest_definition (first_revision ∷ []);
}

decode-history_payload_example :
    decode_source_definition_history render "s"
      (source_definition_history_payload render "s" rest_definition (first_revision ∷ []))
    ≡ ok second_history
decode-history_payload_example =
    decode-history_payload render "s" rest_definition (first_revision ∷ []) (refl, tt)

decode-IsAuthentic_example : IsAuthenticHistory render "s" second_history
decode-IsAuthentic_example =
    decode-IsAuthentic render "s"
      (source_definition_history_payload render "s" rest_definition (first_revision ∷ []))
      second_history decode-history_payload_example
