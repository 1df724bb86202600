-- ===== src/Driver/Readings.antt =====
-- The read commands of internal/driver/wiresinkdriver.go, with `GetTopoList` of
-- internal/config/global.go.
pub mod Answers
pub mod Received
use device_wiresink_go.Prelude.{
  List, [], ◌∷◌, ◌++◌, Option, none, some, if◌then◌else◌, Text, Assoc, codes, text_eq, lookup,
}
use device_wiresink_go.Prelude.Outcome.{no_device, no_value, Result, ok, err}
use device_wiresink_go.Value.{Value, NodeTopology, topology}
use device_wiresink_go.State.{Gateway}
use device_wiresink_go.Strconv.{Runtime}
use device_wiresink_go.Config.Values.{get_device_values}
use device_wiresink_go.Driver.Coerce.{coerce_to}

-- `dsModels.CommandValue`, without the time of its origin.
pub record CommandValue : Type 0 where
  pub resource : Text
  pub type : Text
  pub value : Value

-- What the driver reads of a `CommandRequest`.
pub record CommandRequest : Type 0 where
  pub resource : Text
  pub type : Text

-- `GetTopoList`: a copy.
unfoldable pub get_topo_list : Gateway → List NodeTopology
get_topo_list g = g.topo_list

infixl 5 ◌>>=◌
abbrev pub ◌>>=◌ : {A B : Type 0} → Result A → (A → Result B) → Result B
ok a >>= f = f a
err e >>= f = err e

-- `new_command_value` is `dsModels.NewCommandValue`.
module _ (r : Runtime) (new_command_value : Text → Text → Value → Result CommandValue) where
  -- `makeCV`.
  unfoldable pub make_cv : Text → Text → Value → Result CommandValue
  make_cv name value_type val = coerce_to r val value_type >>= new_command_value name value_type

  -- The body of the loop of `HandleReadCommands`: the topology is answered from its own list.
  unfoldable pub read_one :
      Text → Assoc Value → List NodeTopology → CommandRequest → Result CommandValue
  unfolding make_cv
  read_one device values nodes req =
      if text_eq req.resource (codes "topologyDiagram")
      then new_command_value req.resource (codes "Object") (topology nodes)
      else elim (lookup req.resource values) [
        | none ↦ err (no_value device req.resource)
        | some val ↦ make_cv req.resource req.type val
      ]

  unfoldable pub read_loop :
      Text
      → Assoc Value
      → List NodeTopology
      → List CommandRequest
      → List CommandValue
      → Result (List CommandValue)
  unfolding read_one
  read_loop device values nodes [] res = ok res
  read_loop device values nodes (req ∷ reqs) res =
      read_one device values nodes req >>= λ cv. read_loop device values nodes reqs (res ++ cv ∷ [])

  -- `HandleReadCommands`.
  unfoldable pub handle_read_commands :
      Text → List CommandRequest → Gateway → Result (List CommandValue)
  unfolding read_loop get_topo_list get_device_values
  handle_read_commands device reqs g = elim (get_device_values device g.values) [
    | none ↦ err (no_device device)
    | some values ↦ read_loop device values (get_topo_list g) reqs []
  ]
