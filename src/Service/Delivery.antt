-- ===== src/Service/Delivery.antt =====
-- Messages on their way from the broker to the value table: `sinkMsgHandler` of
-- internal/mqttclient/mqttclient.go, the queue of raw frames, and `StartParser` of
-- internal/frameparser/parser.go.
use device_wiresink_go.Prelude.{
  ℕ, ◌+◌, ◌*◌, ◌^◌, ◌<◌, ◌≡◌, ◌⊎◌, inl, inr, refl, sym, ap, ◌∙◌, subst, arith, List, [], ◌∷◌, ◌++◌,
  Option, some, false, if◌then◌else◌, length, All, All-append, IsByte, Bytes, Text, codes, text_eq,
}
use device_wiresink_go.Prelude.Outcome.{ok}
use device_wiresink_go.Hex.{encode_upper}
use device_wiresink_go.Value.{Value, int64}
use device_wiresink_go.State.{Gateway}
use device_wiresink_go.Config.Values.{get_device_value}
use device_wiresink_go.Config.Mapping.{Mapping, lookup_device_name}
use device_wiresink_go.Control.Entries.{Entry, WellFormed, encoded, encoded-IsByte}
use device_wiresink_go.Mqtt.Ingress.{JsonCodec, Payload, payload_bytes, sink_msg_handler}
use device_wiresink_go.Mqtt.Ingress.Delivered.{sink_msg_handler-encode_upper}
use device_wiresink_go.Driver.Commands.Frames.{with_crc-IsByte}
use device_wiresink_go.Driver.Devices.{Metadata}
use device_wiresink_go.Parser.Receive.Accepted.{data_frame, length-data_frame}
use device_wiresink_go.Parser.Receive.Updated.{last_value, get_device_value-receive}
use device_wiresink_go.Parser.Sharding.Caches.{Unfinished}
use device_wiresink_go.Service.{Service, arrive, parse, Reaches, here, Reaches-before}
use device_wiresink_go.Service.Received.{receive-EndsKept}

-- What a reader sees: the value of a resource of a device.
abbrev pub View : Type 0
View = Text → Text → Option Value

abbrev pub view_of : Gateway → View
view_of g d s = get_device_value d s g.values

module _ (codec : JsonCodec) where
  -- A message of the broker with a frame of data, the readings of the clock when it is parsed, and
  -- what the array of the frame holds behind it.
  pub record Upload : Type 0 where
    pub message : Bytes
    pub payload : Payload codec.Json
    pub inner : Bytes
    pub type : Text
    pub sensor : Bytes
    pub entries : List Entry
    pub packet_type : ℕ
    pub device : Text
    pub now : ℕ
    pub seconds : ℕ
    pub spare : Bytes

  abbrev pub frame_of : Upload → Bytes
  frame_of u = data_frame u.sensor u.entries u.packet_type

  -- The message carries the frame, and the sensor is mapped to the device.
  abbrev pub Carries : Mapping → Upload → Type 0
  Carries mapping u =
      ((length u.sensor ≡ 6)
        × (length u.entries < 16)
        × All WellFormed u.entries
        × ((u.packet_type ≡ 0) ⊎ (u.packet_type ≡ 2))
        × All IsByte u.sensor
        × (lookup_device_name (encode_upper u.sensor) mapping ≡ some u.device))
      × ((codec.edgex_message u.message ≡ ok u.payload)
          × (payload_bytes codec u.payload ≡ ok u.inner)
          × (0 < length u.inner)
          × (codec.sink_payload u.inner
              ≡ ok (record { type = u.type; contents = encode_upper (frame_of u) })))

  -- What an upload makes of a view: the last value that is decoded under each name, and the time.
  abbrev pub updated : Upload → View → View
  updated u view d s =
      if text_eq u.device d
      then last_value u.entries s
          (if text_eq (codes "lastDataTimestamp") s then some (int64 u.now) else view d s)
      else view d s

  pub after_all : List Upload → View → View
  after_all [] view = view
  after_all (u ∷ us) view = after_all us (updated u view)

  frame_of-IsByte : (mapping : Mapping) (u : Upload) → Carries mapping u → All IsByte (frame_of u)
  frame_of-IsByte mapping u ((six, few, wellformed, type, bytes, known), carried) =
      let small : u.packet_type < 3 = elim type [ inl e ↦ omega arith | inr e ↦ omega arith ] in
      let head : ℕ = length u.entries * 2 ^ 4 + u.packet_type in
      let head_lt : head < 256 = omega arith in
      with_crc-IsByte (u.sensor ++ head ∷ encoded u.entries) (
        All-append IsByte u.sensor (head ∷ encoded u.entries) bytes
          (head_lt, encoded-IsByte u.entries wellformed))

  arrives :
      (mapping : Mapping) (u : Upload)
      → Carries mapping u
      → sink_msg_handler codec u.message [] ≡ frame_of u ∷ []
  arrives mapping u ((six, few, wellformed, type, bytes, known), (p, q, some_inner, r)) =
      let long = length-data_frame u.sensor u.spare u.entries six few wellformed u.packet_type in
      sink_msg_handler-encode_upper codec u.message u.inner (frame_of u) u.payload u.type []
        (frame_of-IsByte mapping u
          ((six, few, wellformed, type, bytes, known), (p, q, some_inner, r)))
        (omega arith) p q some_inner r

  module _ (sdk : Metadata) (parse_default : Text → Text → Value) where
    -- From a state in which no frame waits, the parser is not blocked and no cache has noted a last
    -- fragment, messages of the broker, each carrying the text of a whole frame of data, packet
    -- type 0 or 2, of a mapped sensor, closed by `with_crc`, with up to fifteen parameters that
    -- `EncodeParamEntry` wrote, whatever types they name and whatever the clock reads, can be taken
    -- one after the other: turns of the service lead to a state in which no frame waits and every
    -- resource of every device reads as the list of messages makes of what it read before, each
    -- message setting the time stamp of its device and then, under each name, the last value that
    -- is decoded in its frame.
    pub uploads_read :
        (us : List Upload) (g : Gateway)
        → Unfinished g
        → All (Carries g.mapping) us
        → (t : Service) × Reaches codec sdk parse_default
            (record { queue = []; gateway = g; parser_blocked = false })
            t
          × (t.queue ≡ [])
          × (view_of t.gateway ≡ after_all us (view_of g))
    unfolding after_all
    uploads_read [] g fresh h =
        (record { queue = []; gateway = g; parser_blocked = false }, here, refl, refl)
    uploads_read (u ∷ us) g fresh (carries, h) =
        let (six, few, wellformed, type, bytes, known) = carries.0 in
        let frame : Bytes = frame_of u in
        let (after, taken, reads) =
          get_device_value-receive u.sensor u.spare u.entries u.now u.seconds u.packet_type u.device
            g six few wellformed type bytes known in
        let kept = receive-EndsKept u.now u.seconds frame u.spare g fresh after taken in
        let seen : view_of after ≡ updated u (view_of g) = λ i d s. reads d s i in
        let (t, later, empty, ends) =
          uploads_read us after kept.0
            (subst (λ (m : Mapping). All (Carries m) us) (sym kept.2) h) in
        let came : record { queue = frame ∷ []; gateway = g; parser_blocked = false } ≡ record {
          queue = sink_msg_handler codec u.message [];
          gateway = g;
          parser_blocked = false;
        } =
          ap (λ (q : List Bytes). record { queue = q; gateway = g; parser_blocked = false })
            (sym (arrives g.mapping u carries)) in
        (
          t,
          Reaches-before codec sdk parse_default (arrive u.message came) (
              Reaches-before codec sdk parse_default
                (parse u.now u.seconds frame u.spare [] after refl refl taken refl) later),
          empty,
          ends ∙ ap (after_all us) seen,
        )
