-- ===== src/Mqtt/Ingress/Delivered.antt =====
-- What reaches the queue of raw frames of internal/mqttclient/mqttclient.go.
use device_wiresink_go.Prelude.{
  ◌<◌, ◌==◌, ltb, ◌≡◌, ◌⊎◌, inl, inr, refl, arith, List, [], ◌∷◌, ◌++◌, if◌then◌else◌, length, Bool,
  true, false, Bool-cases, All, IsByte, Bytes, Text,
}
use device_wiresink_go.Prelude.Outcome.{Result-cases, ok}
use device_wiresink_go.Hex.{encode_upper}
use device_wiresink_go.Mqtt.{decode_hex_flexible}
use device_wiresink_go.Mqtt.Egress.{length-encode_upper, decode_hex_flexible-encode_upper}
use device_wiresink_go.Mqtt.Ingress.{
  JsonCodec, Payload, SinkPayload, payload_bytes, offer, deliver, inner_payload, sink_msg_handler,
  capacity,
}

-- The queue is as before, or one frame longer, for which there was room.
abbrev pub Offered : List Bytes → List Bytes → Type 0
Offered queue after =
    (after ≡ queue) ⊎ ((raw : Bytes) × (after ≡ queue ++ raw ∷ []) × (length queue < capacity))

offer-Offered : (raw : Bytes) (queue : List Bytes) → Offered queue (offer raw queue)
unfolding offer
offer-Offered raw queue = elim (Bool-cases (ltb (length queue) capacity)) [
  | inl room ↦ inr (raw, ground arith, ground arith)
  | inr full ↦ inl (ground arith)
]

if-Offered :
    (b : Bool) (queue after : List Bytes)
    → Offered queue after
    → Offered queue (if b then queue else after)
if-Offered true queue after h = inl refl
if-Offered false queue after h = h

deliver-Offered : (sp : SinkPayload) (queue : List Bytes) → Offered queue (deliver sp queue)
unfolding deliver
deliver-Offered sp queue =
    if-Offered (length sp.contents == 0) queue _
      (elim (Result-cases (decode_hex_flexible sp.contents)) [
        | inl (raw, e) ↦ rw e (offer-Offered raw queue)
        | inr (problem, e) ↦ rw e (inl refl)
      ])

module _ (codec : JsonCodec) where
  inner_payload-Offered :
      (pb : Bytes) (queue : List Bytes) → Offered queue (inner_payload codec pb queue)
  unfolding inner_payload
  inner_payload-Offered pb queue =
      if-Offered (length pb == 0) queue _ (elim (Result-cases (codec.sink_payload pb)) [
        | inl (sp, e) ↦ rw e (deliver-Offered sp queue)
        | inr (problem, e) ↦ rw e (inl refl)
      ])

  pub sink_msg_handler-Offered :
      (message : Bytes) (queue : List Bytes) → Offered queue (sink_msg_handler codec message queue)
  unfolding sink_msg_handler
  sink_msg_handler-Offered message queue = elim (Result-cases (codec.edgex_message message)) [
    | inr (problem, e) ↦ rw (sink_msg_handler, e) (inl refl)
    | inl (payload, e) ↦
        rw (sink_msg_handler, e)
          (elim (Result-cases (payload_bytes codec payload)) [
            | inr (problem, q) ↦ rw q (inl refl)
            | inl (pb, q) ↦ rw q (inner_payload-Offered pb queue)
          ])
  ]

  -- A message whose inner payload has the text that the publisher writes for a frame puts exactly
  -- that frame at the end of the queue, or drops it where 128 frames wait, whatever the type that
  -- the payload names.
  pub sink_msg_handler-encode_upper :
      (message pb frame : Bytes) (payload : Payload codec.Json) (type : Text) (queue : List Bytes)
      → All IsByte frame
      → 0 < length frame
      → codec.edgex_message message ≡ ok payload
      → payload_bytes codec payload ≡ ok pb
      → 0 < length pb
      → codec.sink_payload pb ≡ ok (record { type = type; contents = encode_upper frame })
      → sink_msg_handler codec message queue
        ≡ (if ltb (length queue) 128 then queue ++ frame ∷ [] else queue)
  unfolding sink_msg_handler inner_payload deliver offer
  sink_msg_handler-encode_upper message pb frame payload type queue bytes some_frame p q some_pb r =
      rw (sink_msg_handler, p, q)
        (ground (arith, r, decode_hex_flexible-encode_upper frame bytes, length-encode_upper frame))
