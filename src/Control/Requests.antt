-- ===== src/Control/Requests.antt =====
-- The control frames, read by the parser of internal/frameparser/parser.go.
use device_wiresink_go.Prelude.{
  ℕ, zero, suc, ◌+◌, ◌*◌, ◌<◌, ◌≡◌, ◌⊎◌, inl, inr, refl, sym, ap, ◌∙◌, arith, [], ◌∷◌, ◌++◌, length,
  All, All-append, IsByte, Bytes,
}
use device_wiresink_go.Prelude.Outcome.{Result, ok, err, invalid_request_set_flag}
use device_wiresink_go.Crc.{crc16}
use device_wiresink_go.Hex.{encode_upper}
use device_wiresink_go.Wire.{with_crc, put_uint32_le, head_byte, ctrl_byte}
use device_wiresink_go.Parser.Receive.Fields.{read_header}
use device_wiresink_go.Parser.Receive.Framing.{header_of, read_header-with_crc}
use device_wiresink_go.Control.{
  build_parameter_query_frame, build_alarm_parameter_query_frame, build_monitoring_data_query_frame,
  build_monitoring_data_query_frame1, build_general_param_query_frame, build_reset_request,
  build_time_param_frame, build_sensor_id_frame,
}

-- A frame was built, and the parser reads it as a whole control frame of the sensor with `n`
-- parameters and this body, and finds its checksum right.
abbrev pub AsControl : Bytes → ℕ → Bytes → Result Bytes → Type 0
AsControl sensor n body built =
    (frame : Bytes) × (built ≡ ok frame)
    × ((read_header frame).sensor ≡ encode_upper sensor)
    × ((read_header frame).data_count ≡ n)
    × ((read_header frame).frag_ind ≡ 0)
    × ((read_header frame).packet_type ≡ 4)
    × ((read_header frame).body ≡ body)
    × (crc16 (read_header frame).checked ≡ (read_header frame).recv_crc)

stamped : (c t : ℕ) → c < 256 → All IsByte (c ∷ put_uint32_le t)
unfolding put_uint32_le
stamped c t h = omega arith

module _ (sensor : Bytes) (six : length sensor ≡ 6) (id_bytes : All IsByte sensor) where
  as_control :
      (n : ℕ) (body : Bytes)
      → n < 16
      → All IsByte body
      → AsControl sensor n body (ok (with_crc (sensor ++ (n * 16 + 4) ∷ body)))
  as_control n body small all =
      let read : read_header (with_crc (sensor ++ (n * 16 + 4) ∷ body))
          ≡ header_of sensor (n * 16 + 4) body =
        read_header-with_crc sensor (n * 16 + 4) body six
          (All-append IsByte sensor ((n * 16 + 4) ∷ body) id_bytes (omega arith, all)) in
      (
        with_crc (sensor ++ (n * 16 + 4) ∷ body),
        refl,
        ap (λ h. h.sensor) read,
        ap (λ h. h.data_count) read ∙ omega arith,
        ap (λ h. h.frag_ind) read ∙ omega arith,
        ap (λ h. h.packet_type) read ∙ omega arith,
        ap (λ h. h.body) read,
        ap (λ h. crc16 h.checked) read ∙ sym (ap (λ h. h.recv_crc) read),
      )

  -- For a sensor ID of six bytes each query without arguments is read back by the parser as a
  -- control frame of its sensor, with the control type of the query in its first byte and a right
  -- checksum; the two builders of the query for data agree.
  pub query_frames :
      AsControl sensor 15 (2 ∷ []) (build_parameter_query_frame sensor)
      × AsControl sensor 15 (6 ∷ []) (build_alarm_parameter_query_frame sensor)
      × AsControl sensor 15 (4 ∷ []) (build_monitoring_data_query_frame sensor)
      × AsControl sensor 15 (4 ∷ []) (build_monitoring_data_query_frame1 sensor)
      × AsControl sensor 0 (12 ∷ []) (build_reset_request sensor)
  unfolding build_parameter_query_frame build_alarm_parameter_query_frame
      build_monitoring_data_query_frame build_monitoring_data_query_frame1 build_reset_request
      head_byte ctrl_byte
  query_frames = (
    as_control 15 (2 ∷ []) (omega arith) (omega arith),
    as_control 15 (6 ∷ []) (omega arith) (omega arith),
    as_control 15 (4 ∷ []) (omega arith) (omega arith),
    as_control 15 (4 ∷ []) (omega arith) (omega arith),
    as_control 0 (12 ∷ []) (omega arith) (omega arith),
  )

  -- For a sensor ID of six bytes the query for one parameter asks for the topology, type code 8
  -- with no length field, whatever parameter type it is called with.
  pub general_param_query_frame :
      (param_type : ℕ)
      → AsControl sensor 1
          (4 ∷ 0x20 ∷ 0x00 ∷ [])
          (build_general_param_query_frame sensor param_type)
  unfolding build_general_param_query_frame head_byte ctrl_byte
  general_param_query_frame param_type =
      as_control 1 (4 ∷ 0x20 ∷ 0x00 ∷ []) (omega arith) (omega arith)

  -- For a sensor ID of six bytes a frame for the time carries the control type 4, its flag and the
  -- timestamp, low byte first, and reads as a control frame with no parameters; a flag that is
  -- neither 0 nor 1 is refused.
  pub time_param_frame :
      (flag timestamp : ℕ)
      → ((flag < 2)
          × AsControl sensor 0
              ((8 + flag) ∷ put_uint32_le timestamp)
              (build_time_param_frame sensor flag timestamp))
        ⊎ ((1 < flag)
            × (build_time_param_frame sensor flag timestamp ≡ err (invalid_request_set_flag flag)))
  unfolding build_time_param_frame head_byte ctrl_byte
  time_param_frame zero timestamp = inl (
    omega arith,
    as_control 0 (8 ∷ put_uint32_le timestamp) (omega arith) (stamped 8 timestamp (omega arith)),
  )
  time_param_frame (suc zero) timestamp = inl (
    omega arith,
    as_control 0 (9 ∷ put_uint32_le timestamp) (omega arith) (stamped 9 timestamp (omega arith)),
  )
  time_param_frame (suc (suc flag)) timestamp = inr (omega arith, ground arith)

  -- For a sensor ID of six bytes a frame that asks for or sets a sensor ID carries the control type
  -- 5, its flag and the bytes of the new ID, and reads as a control frame with no parameters; a
  -- flag that is neither 0 nor 1 is refused.
  pub sensor_id_frame :
      (flag : ℕ) (new_id : Bytes)
      → All IsByte new_id
      → ((flag < 2)
          × AsControl sensor 0 ((10 + flag) ∷ new_id) (build_sensor_id_frame sensor flag new_id))
        ⊎ ((1 < flag)
            × (build_sensor_id_frame sensor flag new_id ≡ err (invalid_request_set_flag flag)))
  unfolding build_sensor_id_frame
  sensor_id_frame zero new_id all =
      inl (omega arith, as_control 0 (10 ∷ new_id) (omega arith) (omega arith, all))
  sensor_id_frame (suc zero) new_id all =
      inl (omega arith, as_control 0 (11 ∷ new_id) (omega arith) (omega arith, all))
  sensor_id_frame (suc (suc flag)) new_id all = inr (omega arith, ground arith)
