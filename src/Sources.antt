-- ===== src/Sources.antt =====
-- sources.py: the declared sources. `strip` stands for `str.strip`, and `resolve` for
-- `Path(_).expanduser().resolve(strict=False).as_posix()`.
pub mod Normal
pub mod Constructed
use efloud.Prelude.{
  ℕ, String, ◌<>◌, Bool, true, false, List, [], ◌∷◌, Option, none, some, not, map, ◌||◌,
}
use efloud.Prelude.{if◌then◌else◌, ◌==◌, string_eq, any, ltb}
use efloud.Errors.{Result, ok, raise, Fault, ◌>>=◌}
use efloud.Json.{
  Json, JsonObject, null, int, str, arr, obj, end, field, array, put, put_some, string_array,
  str_option,
}
use efloud.Inventory.{IntegrityExpectation}
use efloud.Payloads.{expectation_to_dict, int_option}
use efloud.Planning.{sorted_set}

-- What every source has: `adapter_id` is fixed by its class.
pub record Common : Type 0 where
  pub id : String
  pub description : String
  pub role : Option String
  pub tags : List String

pub record LocalSource : Type 0 where
  pub common : Common
  pub path : String
  pub artifact_key : Option String
  pub media_type : Option String
  pub expected_integrity : List IntegrityExpectation

-- `HttpSource` and `RestSource` have the same fields.
pub record UrlSource : Type 0 where
  pub common : Common
  pub url : String
  pub cache_name : Option String
  pub expected_integrity : List IntegrityExpectation

pub record RsyncSource : Type 0 where
  pub common : Common
  pub url : String
  pub paths : List String
  pub local_subpath : Option String
  pub port : Option ℕ
  pub include : List String
  pub exclude : List String

pub record CollectionSource : Type 0 where
  pub common : Common
  pub url : String

pub data Source : Type 0 where
  local : LocalSource → Source
  http : UrlSource → Source
  rest : UrlSource → Source
  rsync : RsyncSource → Source
  collection : CollectionSource → Source

abbrev pub common_of : Source → Common
common_of (local s) = s.common
common_of (http s) = s.common
common_of (rest s) = s.common
common_of (rsync s) = s.common
common_of (collection s) = s.common

abbrev pub source_id : Source → String
source_id s = (common_of s).id

unfoldable pub adapter_id : Source → String
adapter_id (local s) = "efloud:local"
adapter_id (http s) = "efloud:http"
adapter_id (rest s) = "efloud:rest"
adapter_id (rsync s) = "efloud:rsync"
adapter_id (collection s) = "efloud:collection"

-- `isinstance(source, CollectionSource)`
abbrev pub is_collection : Source → Bool
is_collection (collection s) = true
is_collection _ = false

-- `_common_definition`
unfoldable pub common_definition : String → Common → JsonObject
common_definition adapter c = put_some "role" (str_option c.role) (
    field "adapter_id" (str adapter)
      (field "description" (str c.description) (field "tags" (string_array c.tags) end)))

abbrev pub expectations_json : List IntegrityExpectation → Option Json
expectations_json [] = none
expectations_json (e ∷ es) = some (arr (array (map expectation_to_dict (e ∷ es))))

-- `self.artifact_key or f"source:{self.id}"`
unfoldable pub resolved_artifact_key : LocalSource → String
resolved_artifact_key s = elim s.artifact_key [
  | none ↦ "source:" <> s.common.id
  | some key ↦ if key == "" then "source:" <> s.common.id else key
]

-- `definition()` of each class.
unfoldable pub local_definition : LocalSource → JsonObject
unfolding common_definition resolved_artifact_key expectation_to_dict
local_definition s = put_some "expected_integrity" (expectations_json s.expected_integrity) (
    put_some "media_type" (str_option s.media_type) (
      put "artifact_key" (str (resolved_artifact_key s)) (
        put "protocol" (str "local")
          (put "path" (str s.path) (common_definition "efloud:local" s.common)))))

unfoldable pub http_definition : UrlSource → JsonObject
unfolding common_definition expectation_to_dict
http_definition s = put_some "expected_integrity" (expectations_json s.expected_integrity) (
    put_some "cache_name" (str_option s.cache_name) (
      put "protocol" (str "http")
        (put "url" (str s.url) (common_definition "efloud:http" s.common))))

unfoldable pub rest_definition : UrlSource → JsonObject
unfolding common_definition expectation_to_dict
rest_definition s = put_some "expected_integrity" (expectations_json s.expected_integrity) (
    put_some "cache_name" (str_option s.cache_name) (
      put "protocol" (str "rest")
        (put "url" (str s.url) (common_definition "efloud:rest" s.common))))

unfoldable pub rsync_definition : RsyncSource → JsonObject
unfolding common_definition
rsync_definition s = put_some "port" (int_option s.port) (
    put_some "local_subpath" (str_option s.local_subpath) (
      put "exclude" (string_array s.exclude) (
        put "include" (string_array s.include) (
          put "paths" (string_array s.paths) (
            put "protocol" (str "rsync")
              (put "url" (str s.url) (common_definition "efloud:rsync" s.common)))))))

unfoldable pub collection_definition : CollectionSource → JsonObject
unfolding common_definition
collection_definition s =
    put "protocol" (str "collection")
      (put "url" (str s.url) (common_definition "efloud:collection" s.common))

unfoldable pub definition : Source → JsonObject
unfolding local_definition http_definition rest_definition rsync_definition collection_definition
definition (local s) = local_definition s
definition (http s) = http_definition s
definition (rest s) = rest_definition s
definition (rsync s) = rsync_definition s
definition (collection s) = collection_definition s

module _ (strip : String → String) where
  abbrev pub is_blank : String → Bool
  is_blank text = strip text == ""

  -- `_require_text`
  unfoldable pub require_text : String → Result (Unit {0})
  require_text value = if is_blank value then raise Fault.text_missing else ok tt

  -- `_normalize_tags`
  unfoldable pub normalize_tags : List String → Result (List String)
  normalize_tags tags = if any is_blank tags then raise Fault.tag_empty else ok (sorted_set tags)

  abbrev pub require_option : Option String → Result (Unit {0})
  require_option none = ok tt
  require_option (some text) = require_text text

  -- `port is not None and not 1 <= port <= 65535`
  abbrev pub port_out_of_range : Option ℕ → Bool
  port_out_of_range none = false
  port_out_of_range (some port) = ltb port 1 || ltb 65535 port

  abbrev pub check_port : Option ℕ → Result (Unit {0})
  check_port port = if port_out_of_range port then raise Fault.port_out_of_range else ok tt

  abbrev pub with_tags : Common → List String → Common
  with_tags c tags = record c { tags = tags }

  -- `__post_init__` of `HttpSource`, `RestSource` and `CollectionSource`: the checks, and the tags.
  unfoldable pub check_url : Common → String → Result Common
  unfolding require_text normalize_tags
  check_url c url = do
    named ← require_text c.id
    located ← require_text url
    tags ← normalize_tags c.tags
    ok (with_tags c tags)

  unfoldable pub url_source : UrlSource → Result UrlSource
  unfolding check_url
  url_source s = do c ← check_url s.common s.url; ok (record s { common = c })

  unfoldable pub collection_source : CollectionSource → Result CollectionSource
  unfolding check_url
  collection_source s = do c ← check_url s.common s.url; ok (record s { common = c })

  -- `RsyncSource.__post_init__`
  unfoldable pub rsync_source : RsyncSource → Result RsyncSource
  unfolding require_text normalize_tags
  rsync_source s = do
    named ← require_text s.common.id
    located ← require_text s.url
    ranged ← check_port s.port
    tags ← normalize_tags s.common.tags
    ok (record s { common = with_tags s.common tags; paths = sorted_set s.paths })

  -- `LocalSource.__post_init__`
  unfoldable pub local_source : (String → String) → LocalSource → Result LocalSource
  unfolding require_text normalize_tags
  local_source resolve s = do
    named ← require_text s.common.id
    located ← require_text (resolve s.path)
    keyed ← require_option s.artifact_key
    tags ← normalize_tags s.common.tags
    ok (record s { common = with_tags s.common tags; path = resolve s.path })

  -- A declared source, as its class constructs it.
  unfoldable pub declared : (String → String) → Source → Result Source
  unfolding local_source url_source rsync_source collection_source
  declared resolve (local s) = do t ← local_source resolve s; ok (local t)
  declared resolve (http s) = do t ← url_source s; ok (http t)
  declared resolve (rest s) = do t ← url_source s; ok (rest t)
  declared resolve (rsync s) = do t ← rsync_source s; ok (rsync t)
  declared resolve (collection s) = do t ← collection_source s; ok (collection t)
