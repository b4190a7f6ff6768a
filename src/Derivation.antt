-- ===== src/Derivation.antt =====
-- derivation.py: the specification of a derived task and the identity of a derivation.
pub mod Order
use efloud.Prelude.{String, Bool, List, map}
use efloud.Prelude.Sort.{sort}
use efloud.Prelude.Text.{str_leb}
use efloud.Errors.{Result, ok, raise, ◌>>=◌}
use efloud.Json.{Json, JsonObject, bool, str, obj, field, end, string_array}
use efloud.Models.{ArtifactKey, ArtifactObservation, ProducerRef, producer_ref, stable_id}

pub data DependencySemantics : Type 0 where
  content observation : DependencySemantics

abbrev pub semantics_name : DependencySemantics → String
semantics_name content = "content"
semantics_name observation = "observation"

pub record DerivedTaskSpec : Type 0 where
  pub task_id : String
  pub task_version : String
  pub deterministic : Bool
  pub dependency_semantics : DependencySemantics
  pub parameters : JsonObject

-- `DerivedTaskSpec.__post_init__`
unfoldable pub derived_task_spec : DerivedTaskSpec → Result DerivedTaskSpec
unfolding producer_ref
derived_task_spec spec = do producer ← producer_ref spec.task_id spec.task_version; ok spec

-- `DerivedTaskSpec.producer`
unfoldable pub spec_producer : DerivedTaskSpec → Result ProducerRef
unfolding producer_ref
spec_producer spec = producer_ref spec.task_id spec.task_version

unfoldable pub spec_to_dict : DerivedTaskSpec → Json
spec_to_dict spec = obj (
    field "task_id" (str spec.task_id) (
      field "task_version" (str spec.task_version) (
        field "deterministic" (bool spec.deterministic) (
          field "dependency_semantics" (str (semantics_name spec.dependency_semantics))
            (field "parameters" (obj spec.parameters) end)))))

abbrev pub input_identity : DependencySemantics → ArtifactObservation → String
input_identity content o = o.content_id
input_identity observation o = o.observation_id

-- `_input_identities`
unfoldable pub input_identities : DerivedTaskSpec → List ArtifactObservation → List String
input_identities spec inputs = sort str_leb (map (input_identity spec.dependency_semantics) inputs)

unfoldable pub derivation_key_for :
    (Json → String) → DerivedTaskSpec → List ArtifactKey → List ArtifactObservation → String
unfolding input_identities
derivation_key_for digest spec outputs inputs = stable_id digest "derivation" (
    obj (
      field "task_id" (str spec.task_id) (
        field "task_version" (str spec.task_version) (
          field "parameters" (obj spec.parameters) (
            field "outputs" (string_array (sort str_leb outputs)) (
              field "dependency_semantics" (str (semantics_name spec.dependency_semantics))
                (field "inputs" (string_array (input_identities spec inputs)) end)))))))
