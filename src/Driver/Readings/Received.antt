-- ===== src/Driver/Readings/Received.antt =====
-- What `HandleReadCommands` of internal/driver/wiresinkdriver.go answers behind a frame of data that
-- internal/frameparser/parser.go accepts.
use device_wiresink_go.Prelude.{
  ℕ, ◌<◌, ◌≡◌, ◌⊎◌, refl, ap, ◌∙◌, arith, false, List, [], ◌∷◌, some, Option-cases, inl, inr,
  length, All, IsByte, Bytes, Text, Assoc, codes, text_eq, lookup,
}
use device_wiresink_go.Prelude.Outcome.{done, Result, ok}
use device_wiresink_go.Hex.{encode_upper}
use device_wiresink_go.Value.{Value, NodeTopology}
use device_wiresink_go.State.{Gateway}
use device_wiresink_go.Strconv.{Runtime}
use device_wiresink_go.Config.Values.{get_device_value, get_device_values}
use device_wiresink_go.Config.Mapping.{lookup_device_name}
use device_wiresink_go.Control.Entries.{Entry, WellFormed}
use device_wiresink_go.Driver.Coerce.{coerce_to}
use device_wiresink_go.Driver.Readings.{
  ◌>>=◌, CommandValue, CommandRequest, get_topo_list, make_cv, read_one, read_loop,
  handle_read_commands,
}
use device_wiresink_go.Parser.Receive.{receive}
use device_wiresink_go.Parser.Receive.Accepted.{data_frame}
use device_wiresink_go.Parser.Receive.Updated.{after_frame, get_device_value-receive}

module _ (r : Runtime) (new_command_value : Text → Text → Value → Result CommandValue) where
  -- The answer to a request for one resource that has a value.
  abbrev pub answer : Value → CommandRequest → Result (List CommandValue)
  answer v req =
      coerce_to r v req.type >>= new_command_value req.resource req.type >>= λ cv. ok (cv ∷ [])

  read_one-held :
      (device : Text) (req : CommandRequest) (v : Value) (values : Assoc Value)
      (nodes : List NodeTopology)
      → text_eq req.resource (codes "topologyDiagram") ≡ false
      → lookup req.resource values ≡ some v
      → read_one r new_command_value device values nodes req
        ≡ (coerce_to r v req.type >>= new_command_value req.resource req.type)
  unfolding read_one make_cv
  read_one-held device req v values nodes ordinary found = rw (read_one, ordinary, found) refl

  handle_read_commands-held :
      (device : Text) (req : CommandRequest) (v : Value) (g : Gateway)
      → text_eq req.resource (codes "topologyDiagram") ≡ false
      → get_device_value device req.resource g.values ≡ some v
      → handle_read_commands r new_command_value device (req ∷ []) g ≡ answer v req
  unfolding handle_read_commands read_loop get_device_value get_device_values
  handle_read_commands-held device req v g ordinary held =
      elim (Option-cases (lookup device g.values)) [
        | inl missing ↦ absurd (ground arith)
        | inr (values, present) ↦
            let found : lookup req.resource values ≡ some v = ground arith in
            rw (handle_read_commands, present)
              (ap (λ (o : Result CommandValue). o >>= λ cv. ok (cv ∷ []))
                (read_one-held device req v values (get_topo_list g) ordinary found))
      ]

  -- A whole frame of data, packet type 0 or 2, of a known sensor of six bytes, closed by
  -- `with_crc`, with up to fifteen parameters that `EncodeParamEntry` wrote, is handled to the end;
  -- a read command for a resource of its device other than the topology, which then has a value, is
  -- answered with this value, the last one decoded under its name or else what it had before,
  -- converted to the type that is asked for, or with the error of that conversion or of the SDK.
  pub handle_read_commands-receive :
      (sensor spare : Bytes) (es : List Entry) (now seconds packet_type : ℕ) (device : Text)
      (req : CommandRequest) (v : Value) (g : Gateway)
      → length sensor ≡ 6
      → length es < 16
      → All WellFormed es
      → (packet_type ≡ 0) ⊎ (packet_type ≡ 2)
      → All IsByte sensor
      → lookup_device_name (encode_upper sensor) g.mapping ≡ some device
      → text_eq req.resource (codes "topologyDiagram") ≡ false
      → after_frame now device es g device req.resource ≡ some v
      → (after : Gateway) × (receive now seconds (data_frame sensor es packet_type) spare g
          ≡ done after)
        × (handle_read_commands r new_command_value device (req ∷ []) after ≡ answer v req)
  handle_read_commands-receive sensor spare es now seconds packet_type device req v g six few
        wellformed type bytes known ordinary newest =
      let (after, taken, reads) =
        get_device_value-receive sensor spare es now seconds packet_type device g six few wellformed
          type bytes known in
      (
        after,
        taken,
        handle_read_commands-held device req v after ordinary (reads device req.resource ∙ newest),
      )
