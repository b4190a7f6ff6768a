-- ===== src/Adapters.antt =====
-- adapters.py: descriptors, and the registry of adapters by their identifiers. An adapter is its
-- descriptor here; what it acquires is behind the services of the executor.
use efloud.Prelude.{String, Bool, List, [], ◌∷◌, Option}
use efloud.Prelude.{if◌then◌else◌, string_eq}
use efloud.Prelude.Sort.{sort}
use efloud.Prelude.Text.{str_leb}
use efloud.Prelude.Dict
use efloud.Prelude.Dict.{Dict, lookup, values}
use efloud.Errors.{Result, ok, raise, Fault, ◌>>=◌}
use efloud.Json.{Json, bool, str, obj, field, end}
use efloud.Models.{ProducerRef, producer_ref}

pub record AdapterCapabilities : Type 0 where
  pub inventory : Bool
  pub fetch : Bool

unfoldable pub capabilities_to_dict : AdapterCapabilities → Json
capabilities_to_dict c =
    obj (field "inventory" (bool c.inventory) (field "fetch" (bool c.fetch) end))

pub record AdapterDescriptor : Type 0 where
  pub adapter_id : String
  pub version : String
  pub capabilities : AdapterCapabilities

-- `AdapterDescriptor.__post_init__`
unfoldable pub adapter_descriptor : AdapterDescriptor → Result AdapterDescriptor
unfolding producer_ref
adapter_descriptor d = do producer ← producer_ref d.adapter_id d.version; ok d

-- `producer`, of a descriptor whose identity was checked when it was made.
abbrev pub descriptor_producer : AdapterDescriptor → ProducerRef
descriptor_producer d = record { producer_id = d.adapter_id; version = d.version }

unfoldable pub descriptor_to_dict : AdapterDescriptor → Json
unfolding capabilities_to_dict
descriptor_to_dict d = obj (
    field "adapter_id" (str d.adapter_id) (
      field "version" (str d.version)
        (field "capabilities" (capabilities_to_dict d.capabilities) end)))

abbrev pub AdapterRegistry : Type 0
AdapterRegistry = Dict String AdapterDescriptor

-- `register`
unfoldable pub register : AdapterDescriptor → AdapterRegistry → Result AdapterRegistry
unfolding Dict.insert
register d registry =
    if Dict.has d.adapter_id registry
    then raise Fault.adapter_exists
    else ok (Dict.insert d.adapter_id d registry)

-- `AdapterRegistry(adapters)`
unfoldable pub register_all : List AdapterDescriptor → AdapterRegistry → Result AdapterRegistry
unfolding register
register_all [] registry = ok registry
register_all (d ∷ ds) registry = do registry' ← register d registry; register_all ds registry'

-- `adapter_for`, by the identifier of the source's adapter.
unfoldable pub adapter_for : String → AdapterRegistry → Option AdapterDescriptor
adapter_for adapter_id registry = lookup adapter_id registry

abbrev pub entry_leb : String × AdapterDescriptor → String × AdapterDescriptor → Bool
entry_leb a b = str_leb a.0 b.0

-- `descriptors`
unfoldable pub descriptors : AdapterRegistry → List AdapterDescriptor
descriptors registry = values (sort entry_leb registry)
