-- ===== src/Parser/Receive/Accepted.antt =====
-- What internal/frameparser/parser.go does with a whole frame of data whose checksum is right.
use device_wiresink_go.Prelude.{
  ℕ, ◌+◌, ◌*◌, ◌^◌, ◌<◌, ◌≤◌, ◌≡◌, ◌⊎◌, inl, inr, refl, sym, ap, ◌∙◌, subst, arith, List, [], ◌∷◌,
  ◌++◌, append_assoc, some, length, length-append, All, All-append, IsByte, Bytes, Text, Assoc,
  ==_iff,
}
use device_wiresink_go.Prelude.Outcome.{done}
use device_wiresink_go.Crc.{crc16}
use device_wiresink_go.Wire.{with_crc, put_uint16_be}
use device_wiresink_go.Hex.{encode_upper}
use device_wiresink_go.Value.{Value}
use device_wiresink_go.State.{Gateway}
use device_wiresink_go.Config.Mapping.{lookup_device_name}
use device_wiresink_go.Control.{send_data_status}
use device_wiresink_go.Control.Entries.{Entry, WellFormed, encoded, encoded-IsByte}
use device_wiresink_go.Parser.Receive.{
  on_data_received, add_report, params_loop, receive_params, accept, receive_known, receive,
}
use device_wiresink_go.Parser.Receive.Entries.{store_all, params_loop-encoded}
use device_wiresink_go.Parser.Receive.Fields.{Header, read_header}
use device_wiresink_go.Parser.Receive.Framing.{header_of, read_header-with_crc}

-- The report of what was found, where anything was.
abbrev pub reported : Text → Assoc Value × Gateway → Gateway
reported device ([], g) = g
reported device (v ∷ vs, g) = add_report device (v ∷ vs) g

receive_params-found :
    (frame spare : Bytes) (count : ℕ) (device : Text) (g : Gateway) (p : Assoc Value × Gateway)
    → params_loop count frame spare 7 device [] g ≡ done p
    → receive_params frame spare count device g ≡ done (reported device p)
unfolding receive_params
receive_params-found frame spare count device g ([], after) e = rw e refl
receive_params-found frame spare count device g (v ∷ vs, after) e = rw e refl

pub accept-data :
    (seconds : ℕ) (frame spare : Bytes) (sensor device : Text) (h : Header) (packet_type n : ℕ)
    (g : Gateway)
    → h.frag_ind ≡ 0
    → h.packet_type ≡ packet_type
    → h.data_count ≡ n
    → (packet_type ≡ 0) ⊎ (packet_type ≡ 2)
    → accept seconds frame spare sensor device h g
      ≡ receive_params frame spare n device (send_data_status sensor (packet_type + 1) 0xFF n g)
unfolding accept
accept-data seconds frame spare sensor device h packet_type n g whole same count (inl zero_type) =
    rw (whole, same, count, zero_type) refl
accept-data seconds frame spare sensor device h packet_type n g whole same count (inr two_type) =
    rw (whole, same, count, two_type) refl

receive-checked :
    (now seconds : ℕ) (frame spare : Bytes) (device : Text) (g : Gateway)
    → 9 ≤ length frame
    → lookup_device_name (read_header frame).sensor g.mapping ≡ some device
    → crc16 (read_header frame).checked ≡ (read_header frame).recv_crc
    → receive now seconds frame spare g
      ≡ accept seconds frame spare
          (read_header frame).sensor
          device
          (read_header frame)
          (on_data_received now device g)
unfolding receive receive_known
receive-checked now seconds frame spare device g long known right =
    ground (arith, known, ==_iff (crc16 (read_header frame).checked) (read_header frame).recv_crc)

pub receive-header :
    (now seconds : ℕ) (frame spare : Bytes) (device : Text) (h : Header) (g : Gateway)
    → read_header frame ≡ h
    → 9 ≤ length frame
    → lookup_device_name h.sensor g.mapping ≡ some device
    → crc16 h.checked ≡ h.recv_crc
    → receive now seconds frame spare g
      ≡ accept seconds frame spare h.sensor device h (on_data_received now device g)
receive-header now seconds frame spare device h g read long =
    subst
      (λ (k : Header).
        lookup_device_name k.sensor g.mapping ≡ some device
        → crc16 k.checked ≡ k.recv_crc
        → receive now seconds frame spare g
          ≡ accept seconds frame spare k.sensor device k (on_data_received now device g))
      read (receive-checked now seconds frame spare device g long)

-- A frame that carries the entries; its head names their number.
abbrev pub data_frame : Bytes → List Entry → ℕ → Bytes
data_frame sensor es packet_type =
    with_crc (sensor ++ (length es * 2 ^ 4 + packet_type) ∷ encoded es)

-- What is to become of the state: the time stamp, the answer for the sink, the values, the report.
abbrev pub taken_in : Bytes → List Entry → ℕ → ℕ → Text → Gateway → Gateway
taken_in sensor es now packet_type device g = reported device (
    store_all device es [] (
      send_data_status (encode_upper sensor) (packet_type + 1) 0xFF (length es)
        (on_data_received now device g)))

module _ (sensor spare : Bytes) (es : List Entry) (six : length sensor ≡ 6) (few : length es < 16)
    (wellformed : All WellFormed es) where
  pub length-data_frame : (packet_type : ℕ) → 9 ≤ length (data_frame sensor es packet_type)
  unfolding with_crc put_uint16_be
  length-data_frame packet_type =
      let body : Bytes = (length es * 2 ^ 4 + packet_type) ∷ encoded es in
      let crc : ℕ = crc16 (sensor ++ body) in
      omega (arith, length-append (sensor ++ body) (put_uint16_be crc), length-append sensor body)

  receive_params-data_frame :
      (packet_type : ℕ) (device : Text) (g : Gateway)
      → receive_params (data_frame sensor es packet_type) spare (length es) device g
        ≡ done (reported device (store_all device es [] g))
  unfolding with_crc put_uint16_be
  receive_params-data_frame packet_type device g =
      let front : Bytes = sensor ++ (length es * 2 ^ 4 + packet_type) ∷ [] in
      let crc : ℕ = crc16 (sensor ++ (length es * 2 ^ 4 + packet_type) ∷ encoded es) in
      let tail : Bytes = put_uint16_be crc in
      let regroup : data_frame sensor es packet_type ≡ front ++ (encoded es ++ tail) =
        simp append_assoc in
      let seven : length front ≡ 7 =
        omega (arith, length-append sensor ((length es * 2 ^ 4 + packet_type) ∷ [])) in
      receive_params-found (data_frame sensor es packet_type) spare (length es) device g _ (
        ap (λ (s : Bytes). params_loop (length es) s spare 7 device [] g) regroup
        ∙ ap
            (λ (i : ℕ). params_loop (length es) (front ++ (encoded es ++ tail)) spare i device [] g)
            (sym seven)
        ∙ params_loop-encoded es front tail spare device [] g wellformed (omega arith))

  -- A whole frame of data, packet type 0 or 2, of a known sensor, closed by `with_crc`, with up to
  -- fifteen parameters that `EncodeParamEntry` wrote: the parser sets the time stamp of the device,
  -- answers with the status 0xFF and the packet type of the answer, decodes and stores exactly the
  -- values of these parameters in their order, and reports them.
  pub receive-data_frame :
      (now seconds packet_type : ℕ) (device : Text) (g : Gateway)
      → (packet_type ≡ 0) ⊎ (packet_type ≡ 2)
      → All IsByte sensor
      → lookup_device_name (encode_upper sensor) g.mapping ≡ some device
      → receive now seconds (data_frame sensor es packet_type) spare g
        ≡ done (taken_in sensor es now packet_type device g)
  unfolding receive receive_known accept
  receive-data_frame now seconds packet_type device g type bytes known =
      let head : ℕ = length es * 2 ^ 4 + packet_type in
      let small : packet_type ≤ 2 = elim type [
        | inl zero_type ↦ omega arith
        | inr two_type ↦ omega arith
      ] in
      let all : All IsByte (sensor ++ head ∷ encoded es) =
        All-append IsByte sensor (head ∷ encoded es) bytes
          (omega arith, encoded-IsByte es wellformed) in
      let read = read_header-with_crc sensor head (encoded es) six all in
      let h : Header = header_of sensor head (encoded es) in
      let touched : Gateway = on_data_received now device g in
      receive-header now seconds (data_frame sensor es packet_type) spare device h g read
        (length-data_frame packet_type) known refl
      ∙ accept-data seconds (data_frame sensor es packet_type) spare h.sensor device h packet_type
          (length es) touched (omega arith) (omega arith) (omega arith) type
      ∙ receive_params-data_frame packet_type device
          (send_data_status h.sensor (packet_type + 1) 0xFF (length es) touched)
