-- ===== src/Parser/Receive/Updated.antt =====
-- The value table behind a frame of data that internal/frameparser/parser.go accepts.
use device_wiresink_go.Prelude.{
  ℕ, ◌+◌, ◌<◌, ◌≡◌, ◌⊎◌, refl, ap, ◌∙◌, arith, List, [], ◌∷◌, Option, none, some, if◌then◌else◌,
  length, All, IsByte, Bytes, Text, Assoc, codes, text_eq,
}
use device_wiresink_go.Prelude.Outcome.{done}
use device_wiresink_go.Hex.{encode_upper}
use device_wiresink_go.Value.{Value, int64}
use device_wiresink_go.State.{Gateway}
use device_wiresink_go.Config.Values.{Values, get_device_value}
use device_wiresink_go.Config.Values.ReadBack.{get_device_value-set_device_value}
use device_wiresink_go.Config.Mapping.{lookup_device_name}
use device_wiresink_go.Control.{send_data_status}
use device_wiresink_go.Control.Entries.{Entry, WellFormed}
use device_wiresink_go.Parser.Params.{decode_param, store_param, store_value}
use device_wiresink_go.Parser.Receive.{on_data_received, receive}
use device_wiresink_go.Parser.Receive.Entries.{store_all}
use device_wiresink_go.Parser.Receive.Reject.{send_data_status_keeps}
use device_wiresink_go.Parser.Receive.Accepted.{reported, data_frame, taken_in, receive-data_frame}

-- The value of a resource by the parameters of a frame: the last one that is decoded under its name,
-- or what it was before.
abbrev pub newer : Option (Text × Value) → Text → Option Value → Option Value
newer none s before = before
newer (some (name, v)) s before = if text_eq name s then some v else before

unfoldable pub last_value : List Entry → Text → Option Value → Option Value
last_value [] s before = before
last_value (e ∷ es) s before =
    last_value es s (newer (decode_param e.param_type e.contents) s before)

pub get_device_value-store_param :
    (device other s : Text) (o : Option (Text × Value)) (found : Assoc Value) (g : Gateway)
    → get_device_value other s (store_param device o found g).1.values ≡ (
        if text_eq device other
        then newer o s (get_device_value other s g.values)
        else get_device_value other s g.values)
unfolding store_param store_value
get_device_value-store_param device other s none found g = ground arith
get_device_value-store_param device other s (some (name, v)) found g =
    ground (arith, get_device_value-set_device_value device name other s v g.values)

get_device_value-store_all :
    (device other s : Text) (es : List Entry) (found : Assoc Value) (g : Gateway)
    → get_device_value other s (store_all device es found g).1.values ≡ (
        if text_eq device other
        then last_value es s (get_device_value other s g.values)
        else get_device_value other s g.values)
unfolding store_all last_value
get_device_value-store_all device other s [] found g = ground arith
get_device_value-store_all device other s (e ∷ es) found g =
    let o : Option (Text × Value) = decode_param e.param_type e.contents in
    let after = store_param device o found g in
    ground (
      arith,
      get_device_value-store_all device other s es after.0 after.1,
      get_device_value-store_param device other s o found g,
    )

values-reported :
    (device : Text) (p : Assoc Value × Gateway) → (reported device p).values ≡ p.1.values
values-reported device ([], g) = refl
values-reported device (v ∷ vs, g) = refl

-- What a resource is to read after the frame: by the parameters of the frame where it belongs to the
-- device of the sensor, whose time stamp is set first.
abbrev pub after_frame : ℕ → Text → List Entry → Gateway → Text → Text → Option Value
after_frame now device es g other s =
    if text_eq device other
    then last_value es s (
        if text_eq (codes "lastDataTimestamp") s
        then some (int64 now)
        else get_device_value other s g.values)
    else get_device_value other s g.values

-- A whole frame of data, packet type 0 or 2, of a known sensor, closed by `with_crc`, with up to
-- fifteen parameters that `EncodeParamEntry` wrote, is handled to the end; then a resource of the
-- device of the sensor has the last value that was decoded under its name, or its time stamp, or
-- what it had before, and every other device is as before.
pub get_device_value-receive :
    (sensor spare : Bytes) (es : List Entry) (now seconds packet_type : ℕ) (device : Text)
    (g : Gateway)
    → length sensor ≡ 6
    → length es < 16
    → All WellFormed es
    → (packet_type ≡ 0) ⊎ (packet_type ≡ 2)
    → All IsByte sensor
    → lookup_device_name (encode_upper sensor) g.mapping ≡ some device
    → (after : Gateway) × (receive now seconds (data_frame sensor es packet_type) spare g
        ≡ done after)
      × ((other s : Text)
          → get_device_value other s after.values ≡ after_frame now device es g other s)
unfolding on_data_received store_value
get_device_value-receive sensor spare es now seconds packet_type device g six few wellformed type
      bytes known =
    (
      taken_in sensor es now packet_type device g,
      receive-data_frame sensor spare es six few wellformed now seconds packet_type device g type
          bytes known,
      λ other s.
          let touched : Gateway = on_data_received now device g in
          let sent : Gateway =
            send_data_status (encode_upper sensor) (packet_type + 1) 0xFF (length es) touched in
          ap (λ (v : Values). get_device_value other s v)
            (values-reported device (store_all device es [] sent))
          ∙ ground (
            arith,
            get_device_value-store_all device other s es [] sent,
            ap (λ (h : Gateway). get_device_value other s h.values)
                (send_data_status_keeps (encode_upper sensor) (packet_type + 1) 0xFF (length es)
                  touched),
            get_device_value-set_device_value device (codes "lastDataTimestamp") other s (int64 now)
                g.values,
          ),
    )
