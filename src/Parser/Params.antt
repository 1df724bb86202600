-- ===== src/Parser/Params.antt =====
-- What the loops of the parser do with one parameter.
use device_wiresink_go.Prelude.{ℕ, List, Option, none, some, Bytes, Text, Assoc, insert}
use device_wiresink_go.Prelude.Outcome.{ok, err}
use device_wiresink_go.Value.{Value, NodeTopology, topology}
use device_wiresink_go.State.{Gateway}
use device_wiresink_go.Config.Values.{set_device_value}
use device_wiresink_go.Config.Decode.{parse_value}
use device_wiresink_go.Config.Params.{lookup_param_info}

-- `SetDeviceValue` on the whole state.
unfoldable pub store_value : Text → Text → Value → Gateway → Gateway
unfolding set_device_value
store_value device resource value g = record g {
  values = set_device_value device resource value g.values;
}

-- `parseTopo` leaves the nodes it decoded in `TopoList`.
abbrev pub topo_after : Value → List NodeTopology → List NodeTopology
topo_after (topology nodes) old = nodes
topo_after _ old = old

-- What becomes of the bytes of one value: a value with its name, or nothing.
unfoldable pub decode_param : ℕ → Bytes → Option (Text × Value)
decode_param param_type bytes = elim (lookup_param_info param_type) [
  | none ↦ none
  | some info ↦ elim (parse_value info.parse bytes) [
    | err e ↦ none
    | ok value ↦ some (info.name, value)
  ]
]

-- `config.SetDeviceValue` and the write into the map of the loop, `resourceValues` or `Resources1`.
unfoldable pub store_param :
    Text → Option (Text × Value) → Assoc Value → Gateway → Assoc Value × Gateway
unfolding store_value
store_param device none found g = (found, g)
store_param device (some (name, value)) found g = (
  insert name value found,
  store_value device name value (record g { topo_list = topo_after value g.topo_list }),
)
