-- ===== src/Tests/Sample.antt =====
-- Sample data: a readable stand-in for the digest, and a few records.
use efloud.Prelude.{String, ◌<>◌, true, false, none, some}
use efloud.Json.{Json, JsonArray, JsonObject, null, bool, int, str, arr, obj, nil, cons, end, field}
use efloud.Models.{ContentRef, ArtifactObservation, ArtifactAbsence}
use efloud.Catalog.Runs.{NewOperation}

-- A text of the value in place of its SHA-256.
unfoldable mutual
  pub render : Json → String
  render null = "null"
  render (bool true) = "true"
  render (bool false) = "false"
  render (int n) = "#"
  render (str s) = "'" <> s <> "'"
  render (arr xs) = "[" <> render_array xs <> "]"
  render (obj o) = "{" <> render_object o <> "}"

  pub render_array : JsonArray → String
  render_array nil = ""
  render_array (cons x xs) = render x <> "," <> render_array xs

  pub render_object : JsonObject → String
  render_object end = ""
  render_object (field k v o) = k <> ":" <> render v <> "," <> render_object o

abbrev pub http_definition : JsonObject
http_definition = field "url" (str "https://example.test/a") end

abbrev pub rest_definition : JsonObject
rest_definition = field "url" (str "https://example.test/b") end

abbrev pub page : ContentRef
page = record { content_id = "sha256:aa"; byte_size = 3; media_type = none }

abbrev pub seen : ArtifactObservation
seen = record {
  observation_id = "obs:1";
  artifact_key = "source:s";
  content_id = "sha256:aa";
  source_id = some "s";
  run_id = "run:1";
  operation_id = "op:1";
  observed_at = 5;
  source_path = none;
  upstream_locator = none;
  upstream_modified_at = none;
  upstream_version = none;
  media_type = none;
  metadata = end;
}

abbrev pub gone : ArtifactAbsence
gone = record {
  observation_id = "obs:2";
  artifact_key = "source:s";
  source_id = some "s";
  run_id = "run:1";
  operation_id = "op:1";
  observed_at = 8;
  source_path = none;
  upstream_locator = none;
  metadata = end;
}

abbrev pub fetch : NewOperation
fetch = record {
  run_id = "run:1";
  source_id = some "s";
  kind = "http";
  subject = "s";
  started_at = 2;
  parameters =
      field "producer"
        (obj (field "producer_id" (str "efloud:http") (field "version" (str "1") end))) end;
}
