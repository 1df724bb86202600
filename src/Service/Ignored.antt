-- ===== src/Service/Ignored.antt =====
-- Frames that the service of internal/driver/wiresinkdriver.go takes from its queue and does not
-- answer: those of sensors that `Start` did not map, and requests once `WriteChan` is full or closed.
use device_wiresink_go.Prelude.{
  ℕ, ◌/◌, ◌%◌, ◌^◌, ◌≤◌, ◌≡◌, ◌⊎◌, inl, inr, arith, true, none, some, if◌then◌else◌, length, ◌∷◌,
  ◌++◌, All, IsByte, Bytes, Text, codes, ◌∙◌,
}
use device_wiresink_go.Prelude.Outcome.{done, panicked, blocked}
use device_wiresink_go.Wire.{with_crc}
use device_wiresink_go.Hex.{encode_upper}
use device_wiresink_go.Value.{Value, string}
use device_wiresink_go.State.{Gateway}
use device_wiresink_go.Config.Values.{get_device_value}
use device_wiresink_go.Config.Mapping.{lookup_device_name}
use device_wiresink_go.Config.Tool.{write_chan_capacity}
use device_wiresink_go.Mqtt.Ingress.{JsonCodec}
use device_wiresink_go.Driver.Devices.{Metadata}
use device_wiresink_go.Parser.Receive.{receive}
use device_wiresink_go.Parser.Receive.Fields.{read_header}
use device_wiresink_go.Parser.Receive.Requested.{answered, receive-request}
use device_wiresink_go.Service.{Service, Reaches}
use device_wiresink_go.Service.Invariant.{Healthy, Reaches-Grows}

receive-unmapped :
    (now seconds : ℕ) (frame spare : Bytes) (g : Gateway)
    → lookup_device_name (read_header frame).sensor g.mapping ≡ none
    → receive now seconds frame spare g ≡ done g
unfolding receive
receive-unmapped now seconds frame spare g unmapped = ground (arith, unmapped)

module _ (codec : JsonCodec) (sdk : Metadata) (parse_default : Text → Text → Value) where
  -- In every state that turns of the service lead to from a healthy one, a frame of a sensor that
  -- was not mapped at the start is ignored: nothing maps a sensor after `Start`.
  pub Reaches-unmapped :
      (start s : Service) (now seconds : ℕ) (frame spare : Bytes)
      → Healthy start
      → Reaches codec sdk parse_default start s
      → lookup_device_name (read_header frame).sensor start.gateway.mapping ≡ none
      → receive now seconds frame spare s.gateway ≡ done s.gateway
  Reaches-unmapped start s now seconds frame spare h r unmapped =
      let (more, closes, stays) = Reaches-Grows codec sdk parse_default start s h r in
      receive-unmapped now seconds frame spare s.gateway (stays (read_header frame).sensor unmapped)

  answered-full :
      (start s : Service) (now seconds : ℕ) (device eid : Text)
      → Healthy start
      → Reaches codec sdk parse_default start s
      → (write_chan_capacity ≤ length start.gateway.at_commands)
        ⊎ (start.gateway.write_chan_closed ≡ true)
      → answered now seconds device eid s.gateway
        ≡ (if s.gateway.write_chan_closed then panicked else blocked)
  answered-full start s now seconds device eid h r (inl full) =
      let (more, closes, stays) = Reaches-Grows codec sdk parse_default start s h r in ground arith
  answered-full start s now seconds device eid h r (inr closed) =
      let (more, closes, stays) = Reaches-Grows codec sdk parse_default start s h r in
      rw (closes closed) (ground (arith, closes closed))

  -- In every state that turns of the service lead to from a healthy one in which `WriteChan` holds
  -- 100 AT commands or is closed, each further request for the time, control type 7 with the flag
  -- 0, of a mapped sensor whose device has a text as its EID panics the parser where the channel is
  -- closed by then, and blocks it for ever otherwise: nothing takes a command out.
  pub Reaches-unanswered :
      (start s : Service) (now seconds head : ℕ) (sensor rest spare : Bytes) (device eid : Text)
      → Healthy start
      → Reaches codec sdk parse_default start s
      → (write_chan_capacity ≤ length start.gateway.at_commands)
        ⊎ (start.gateway.write_chan_closed ≡ true)
      → length sensor ≡ 6
      → head / 2 ^ 3 % 2 ≡ 0
      → (head % 2 ^ 3 ≡ 4) ⊎ (head % 2 ^ 3 ≡ 5)
      → All IsByte (sensor ++ head ∷ 0x0E ∷ rest)
      → lookup_device_name (encode_upper sensor) s.gateway.mapping ≡ some device
      → get_device_value device (codes "eid") s.gateway.values ≡ some (string eid)
      → receive now seconds (with_crc (sensor ++ head ∷ 0x0E ∷ rest)) spare s.gateway
        ≡ (if s.gateway.write_chan_closed then panicked else blocked)
  Reaches-unanswered start s now seconds head sensor rest spare device eid h r spent six whole
        control all mapped known =
      receive-request now seconds head sensor rest spare device eid s.gateway six whole control all
        mapped known
      ∙ answered-full start s now seconds device eid h r spent
