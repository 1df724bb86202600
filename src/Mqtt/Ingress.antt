-- ===== src/Mqtt/Ingress.antt =====
-- `sinkMsgHandler` of internal/mqttclient/mqttclient.go: from a message of the broker to the queue of
-- raw frames.
pub mod Delivered
use device_wiresink_go.Prelude.{
  ℕ, ◌==◌, ltb, List, [], ◌∷◌, ◌++◌, if◌then◌else◌, length, Bytes, Text,
}
use device_wiresink_go.Prelude.Outcome.{nil_payload, Result, ok, err}
use device_wiresink_go.Mqtt.{decode_hex_flexible}

-- The dynamic types that `payloadBytes` tells apart; `J` stands for all others, maps included.
pub data Payload (J : Type 0) : Type 0 where
  nothing : Payload J
  raw_message : Bytes → Payload J
  text : Text → Payload J
  byte_slice : Bytes → Payload J
  other : J → Payload J

-- What the code reads of `SinkPayload`, but for its length, which is only logged.
pub record SinkPayload : Type 0 where
  pub type : Text
  pub contents : Text

-- encoding/json: `json.Unmarshal` into an `EdgexMessage`, of which only the payload is used, and into
-- a `SinkPayload`; `json.Marshal` of a payload.
pub record JsonCodec : Type 1 where
  pub Json : Type 0
  pub edgex_message : Bytes → Result (Payload Json)
  pub sink_payload : Bytes → Result SinkPayload
  pub marshal : Json → Result Bytes

module _ (codec : JsonCodec) where
  -- `payloadBytes`.
  unfoldable pub payload_bytes : Payload codec.Json → Result Bytes
  payload_bytes nothing = err nil_payload
  payload_bytes (raw_message v) = ok v
  payload_bytes (text v) = ok v
  payload_bytes (byte_slice v) = ok v
  payload_bytes (other v) = codec.marshal v

-- The capacity of `SinkRawDataCh`.
abbrev pub capacity : ℕ
capacity = 128

-- `select` with a default: a full queue drops the frame.
unfoldable pub offer : Bytes → List Bytes → List Bytes
offer raw queue = if ltb (length queue) capacity then queue ++ raw ∷ [] else queue

-- The decoded inner payload. A type other than `sink` is only logged.
unfoldable pub deliver : SinkPayload → List Bytes → List Bytes
unfolding offer
deliver sp queue =
    if length sp.contents == 0
    then queue
    else elim (decode_hex_flexible sp.contents) [ err e ↦ queue | ok raw ↦ offer raw queue ]

module _ (codec : JsonCodec) where
  -- The inner payload, by its bytes.
  unfoldable pub inner_payload : Bytes → List Bytes → List Bytes
  unfolding deliver
  inner_payload pb queue =
      if length pb == 0
      then queue
      else elim (codec.sink_payload pb) [ err e ↦ queue | ok sp ↦ deliver sp queue ]

  -- `sinkMsgHandler`, on the queue of frames, oldest first.
  unfoldable pub sink_msg_handler : Bytes → List Bytes → List Bytes
  unfolding inner_payload payload_bytes
  sink_msg_handler message queue = elim (codec.edgex_message message) [
    | err e ↦ queue
    | ok payload ↦ elim (payload_bytes codec payload) [
      | err e ↦ queue
      | ok pb ↦ inner_payload pb queue
    ]
  ]
