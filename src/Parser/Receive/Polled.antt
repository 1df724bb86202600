-- ===== src/Parser/Receive/Polled.antt =====
-- The value table behind a response to a query for parameters, on its way through `StartParser` of
-- internal/frameparser/parser.go and `common_para_response` of
-- internal/config/param_table_parser_response.go.
use device_wiresink_go.Prelude.{
  ℕ, suc, ◌+◌, ◌*◌, ◌/◌, ◌%◌, ◌^◌, ◌<◌, ◌≡◌, ◌⊎◌, inl, inr, refl, ap, ◌∙◌, arith, true, false, List,
  [], ◌∷◌, ◌++◌, some, if◌then◌else◌, length, append-nil, subst, All, All-append, IsByte, Bytes,
  Text, codes, text_eq,
}
use device_wiresink_go.Prelude.Outcome.{Outcome, done, ◌>>=◌}
use device_wiresink_go.Wire.{with_crc}
use device_wiresink_go.Hex.{encode_upper}
use device_wiresink_go.Value.{int64}
use device_wiresink_go.State.{Frame, Gateway}
use device_wiresink_go.Config.Values.{get_device_value}
use device_wiresink_go.Config.Values.ReadBack.{get_device_value-set_device_value}
use device_wiresink_go.Config.Mapping.{lookup_device_name}
use device_wiresink_go.Control.Entries.{Entry, WellFormed, encoded, encoded-IsByte}
use device_wiresink_go.Parser.Params.{decode_param, store_value}
use device_wiresink_go.Parser.Response.{
  common, response_map, lookup_response_handle, run_handler, handle_by_head, handle_frame_ctl,
}
use device_wiresink_go.Parser.Response.Loop.{response_store, common_para_response}
use device_wiresink_go.Parser.Receive.{on_data_received, add_report, receive_control, receive}
use device_wiresink_go.Parser.Receive.Accepted.{receive-header}
use device_wiresink_go.Parser.Receive.Fields.{Header}
use device_wiresink_go.Parser.Receive.Framing.{header_of, read_header-with_crc}
use device_wiresink_go.Parser.Receive.Requested.{accept-control, length-request}
use device_wiresink_go.Parser.Receive.Responded.{
  response_all, OneOrder, entry_of, common_para_response-encoded,
}
use device_wiresink_go.Parser.Receive.Updated.{
  last_value, get_device_value-store_param, after_frame,
}

get_device_value-response_all :
    (device other s : Text) (es : List Entry) (g : Gateway)
    → get_device_value other s (response_all device es g).values ≡ (
        if text_eq device other
        then last_value es s (get_device_value other s g.values)
        else get_device_value other s g.values)
unfolding response_all last_value response_store
get_device_value-response_all device other s [] g = ground arith
get_device_value-response_all device other s (e ∷ es) g = ground (
  arith,
  get_device_value-response_all device other s es (response_store device e.param_type e.contents g),
  get_device_value-store_param device other s (decode_param e.param_type e.contents) g.resources g,
)

lookup-common : (ctrl : ℕ) → ctrl / 2 ≡ 2 → lookup_response_handle ctrl ≡ some common
unfolding lookup_response_handle response_map
lookup-common ctrl e = rw e refl

handle_by_head-common :
    (seconds ctrl : ℕ) (rest : Bytes) (frame : Frame) (g : Gateway)
    → ctrl / 2 ≡ 2
    → handle_by_head seconds (ctrl ∷ rest) frame g ≡ common_para_response rest frame g
unfolding handle_by_head run_handler
handle_by_head-common seconds ctrl rest frame g control =
    rw (handle_by_head, lookup-common ctrl control) refl

OneOrder-WellFormed : (es : List Entry) → All OneOrder es → All WellFormed es
OneOrder-WellFormed [] h = tt
OneOrder-WellFormed (e ∷ es) ((k, other), h) = (k, OneOrder-WellFormed es h)

entry_of-IsByte : (e : Entry) → OneOrder e → All IsByte (entry_of e)
unfolding encoded
entry_of-IsByte e h =
    subst (All IsByte) (append-nil (entry_of e))
      (encoded-IsByte (e ∷ []) (OneOrder-WellFormed (e ∷ []) (h, tt)))

-- The state after a response with the parameters `es` and one more behind them.
abbrev polled : Text → List Entry → Gateway → Gateway
polled device es g =
    record (response_all device es (record g { resources = []; resources_flag = false })) {
      resources_flag = true;
    }

abbrev reported : Text → Gateway → Gateway
reported device after = record (add_report device after.resources after) { resources_flag = false }

receive_control-polled :
    (seconds ctrl : ℕ) (device : Text) (frame : Frame) (es : List Entry) (last : Entry)
    (g : Gateway)
    → ctrl / 2 ≡ 2
    → frame.payload ≡ ctrl ∷ (encoded es ++ entry_of last)
    → frame.data_len ≡ suc (length es)
    → All OneOrder es
    → OneOrder last
    → lookup_device_name frame.sensor_id g.mapping ≡ some device
    → receive_control seconds device frame g ≡ done (reported device (polled device es g))
unfolding receive_control handle_frame_ctl
receive_control-polled seconds ctrl device frame es last g control body count h k known =
    let flush = λ (o : Outcome Gateway).
      o >>= λ after. done (if after.resources_flag then reported device after else after) in
    ap (λ (payload : Bytes). flush (handle_by_head seconds payload frame g)) body
    ∙ ap flush (
        handle_by_head-common seconds ctrl (encoded es ++ entry_of last) frame g control
        ∙ common_para_response-encoded es last frame device g h k count known)

-- A whole control frame, packet type 4 or 5, of control type 2, closed by `with_crc`, of a known
-- sensor of six bytes, with one to fifteen parameters that `EncodeParamEntry` wrote, none with a
-- length of two bytes, is handled to the end; then a resource of the device of the sensor has the
-- last value that was decoded under its name by a parameter other than the last one of the frame,
-- or its time stamp, or what it had before, and every other device is as before: the last parameter
-- of every response is lost.
pub get_device_value-polled :
    (sensor spare : Bytes) (es : List Entry) (last : Entry) (now seconds packet_type ctrl : ℕ)
    (device : Text) (g : Gateway)
    → length sensor ≡ 6
    → length es < 15
    → All OneOrder es
    → OneOrder last
    → (packet_type ≡ 4) ⊎ (packet_type ≡ 5)
    → ctrl / 2 ≡ 2
    → All IsByte sensor
    → lookup_device_name (encode_upper sensor) g.mapping ≡ some device
    → (after : Gateway) × (receive now seconds
          (with_crc (
            sensor
            ++ (suc (length es) * 2 ^ 4 + packet_type) ∷ ctrl ∷ (encoded es ++ entry_of last)))
          spare
          g
        ≡ done after)
      × ((other s : Text)
          → get_device_value other s after.values ≡ after_frame now device es g other s)
unfolding on_data_received store_value
get_device_value-polled sensor spare es last now seconds packet_type ctrl device g six few h k type
      control bytes known =
    let head : ℕ = suc (length es) * 2 ^ 4 + packet_type in
    let body : Bytes = ctrl ∷ (encoded es ++ entry_of last) in
    let small : packet_type < 8 = elim type [ inl e ↦ omega arith | inr e ↦ omega arith ] in
    let head_lt : head < 256 = omega arith in
    let ctrl_lt : ctrl < 256 = omega arith in
    let all : All IsByte (sensor ++ head ∷ body) = All-append IsByte sensor (head ∷ body) bytes (
      head_lt,
      (
        ctrl_lt,
        All-append IsByte (encoded es) (entry_of last)
            (encoded-IsByte es (OneOrder-WellFormed es h)) (entry_of-IsByte last k),
      ),
    ) in
    let frame : Bytes = with_crc (sensor ++ head ∷ body) in
    let header : Header = header_of sensor head body in
    let touched : Gateway = on_data_received now device g in
    let whole : head / 2 ^ 3 % 2 ≡ 0 = elim type [ inl e ↦ omega arith | inr e ↦ omega arith ] in
    let count : head / 2 ^ 4 ≡ suc (length es) = omega arith in
    let kind : (head % 2 ^ 3 ≡ 4) ⊎ (head % 2 ^ 3 ≡ 5) = elim type [
      | inl e ↦ inl (omega arith)
      | inr e ↦ inr (omega arith)
    ] in
    (
      reported device (polled device es touched),
      receive-header now seconds frame spare device header g
            (read_header-with_crc sensor head body six all)
            (length-request sensor head ctrl (encoded es ++ entry_of last) six) known refl
          ∙ accept-control seconds frame spare header.sensor device header touched whole kind
          ∙ receive_control-polled seconds ctrl device _ es last touched control refl count h k
              known,
      λ other s.
          get_device_value-response_all device other s es
            (record touched { resources = []; resources_flag = false })
          ∙ ground (
            arith,
            get_device_value-set_device_value device (codes "lastDataTimestamp") other s (int64 now)
                g.values,
          ),
    )
