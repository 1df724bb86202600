-- ===== src/Examples/DeliveryRuns.antt =====
-- Messages of the broker on their way to the value table, at concrete inputs.
use device_wiresink_go.Prelude.{
  ◌<◌, ◌+◌, ◌^◌, length, inl, ℕ, ◌≡◌, refl, arith, List, [], ◌∷◌, Bytes, codes,
}
use device_wiresink_go.Hex.{encode_upper}
use device_wiresink_go.Mqtt.Ingress.{text, payload_bytes}
use device_wiresink_go.Service.{Service, Reaches}
use device_wiresink_go.Parser.Receive.Accepted.{data_frame}
use device_wiresink_go.Control.Entries.{Entry}
use device_wiresink_go.Service.Delivery.{Upload, Carries, view_of, after_all, uploads_read}
use device_wiresink_go.Examples.{knows_id, id, dev, mapping, service}
use device_wiresink_go.Examples.DriverRuns.{sdk, as_text}
use device_wiresink_go.Mqtt.Egress.{length-encode_upper}
use device_wiresink_go.Parser.Receive.Accepted.{length-data_frame}
use device_wiresink_go.Examples.ServiceRuns.{codec, idle}

-- Two messages of the sensor: a humidity of 60, then one of 61.
abbrev humidity : ℕ → Entry
humidity n = record { param_type = 2 ^ 11 + 7; len_flag = 1; contents = n ∷ 0 ∷ [] }

abbrev upload : ℕ → ℕ → Upload codec
upload n now = record {
  message = encode_upper (data_frame id (humidity n ∷ []) 0);
  payload = text (encode_upper (data_frame id (humidity n ∷ []) 0));
  inner = encode_upper (data_frame id (humidity n ∷ []) 0);
  type = codes "sensor";
  sensor = id;
  entries = humidity n ∷ [];
  packet_type = 0;
  device = dev;
  now = now;
  seconds = 0;
  spare = [];
}

abbrev uploads : List (Upload codec)
uploads = upload 60 5 ∷ upload 61 6 ∷ []

length_inner : (n : ℕ) → n < 256 → 0 < length (encode_upper (data_frame id (humidity n ∷ []) 0))
length_inner n small =
    let frame : Bytes = data_frame id (humidity n ∷ []) 0 in
    omega (
      arith,
      length-encode_upper frame,
      length-data_frame id [] (humidity n ∷ []) refl (omega arith)
          ((omega arith, omega arith, omega arith), tt) 0,
    )

carries : (n now : ℕ) → n < 256 → Carries codec mapping (upload n now)
unfolding payload_bytes encode_upper
carries n now small = (
  (
    refl,
    omega arith,
    ((omega arith, omega arith, omega arith), tt),
    inl refl,
    omega arith,
    knows_id,
  ),
  (refl, refl, length_inner n small, refl),
)

uploads_read_example :
    (t : Service) × Reaches codec sdk as_text idle t
    × (t.queue ≡ [])
    × (view_of t.gateway ≡ after_all codec uploads (view_of service))
uploads_read_example =
    uploads_read codec sdk as_text uploads service tt
      (carries 60 5 (omega arith), (carries 61 6 (omega arith), tt))
