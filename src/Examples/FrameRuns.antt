-- ===== src/Examples/FrameRuns.antt =====
-- The theorems on single frames at concrete inputs.
use device_wiresink_go.Prelude.{
  inl, ◌+◌, ◌*◌, ◌^◌, ◌++◌, ◌⊎◌, inr, ◌≢◌, ◌≡◌, refl, arith, [], ◌∷◌, some, Bytes, Text,
}
use device_wiresink_go.Prelude.Outcome.{done, stuck, panicked, out_of_fuel, err}
use device_wiresink_go.State.{Gateway}
use device_wiresink_go.Config.Values.{get_device_value}
use device_wiresink_go.Config.Topo.{parse_topo}
use device_wiresink_go.Parser.Receive.{receive}
use device_wiresink_go.Parser.Receive.Accepted.{data_frame, taken_in, receive-data_frame}
use device_wiresink_go.Parser.Receive.Updated.{after_frame, get_device_value-receive}
use device_wiresink_go.Parser.Receive.Ending.{receive-ne-stuck}
use device_wiresink_go.Parser.Receive.Overlong.{receive_overlong}
use device_wiresink_go.Control.Entries.{Entry, WellFormed}
use device_wiresink_go.Wire.{with_crc, put_uint16_le}
use device_wiresink_go.Parser.Receive.Requested
use device_wiresink_go.Parser.Receive.Requested.{receive-request}
use device_wiresink_go.Examples.{request, knows_id, knows_eid, id, sensor, dev, service, bad_frame}
use device_wiresink_go.Config.Params.{lookup_param_info}
use device_wiresink_go.Config.Params.Row.{ParamInfo, parse_float32}
use device_wiresink_go.Config.Params.Names.{shared_name, lookup_param_info-name}
use device_wiresink_go.Parser.Receive.Responded.{entry_of}
use device_wiresink_go.Parser.Receive.Polled.{get_device_value-polled}
use device_wiresink_go.Control.Entries.{encoded}

-- A parameter of type 7 with a length of one byte: four bytes, the pattern of a float32.
abbrev entry : Entry
entry = record { param_type = 7; len_flag = 1; contents = 1 ∷ 2 ∷ 3 ∷ 4 ∷ [] }

entry-WellFormed : WellFormed entry
entry-WellFormed = (omega arith, omega arith, omega arith)

receive-data_frame_example :
    receive 5 0 (data_frame id (entry ∷ []) 2) [] service
    ≡ done (taken_in id (entry ∷ []) 5 2 dev service)
receive-data_frame_example =
    receive-data_frame id [] (entry ∷ []) refl (omega arith) (entry-WellFormed, tt) 5 0 2 dev
      service (inr refl) (omega arith) knows_id

get_device_value-receive_example :
    (after : Gateway) × (receive 5 0 (data_frame id (entry ∷ []) 2) [] service ≡ done after)
    × ((other s : Text)
        → get_device_value other s after.values ≡ after_frame 5 dev (entry ∷ []) service other s)
get_device_value-receive_example =
    get_device_value-receive id [] (entry ∷ []) 5 0 2 dev service refl (omega arith)
      (entry-WellFormed, tt) (inr refl) (omega arith) knows_id

receive-request_example :
    receive 5 1700000000 request [] service ≡ Requested.answered 5 1700000000 dev sensor service
receive-request_example =
    receive-request 5 1700000000 4 id [] [] dev sensor service refl refl (inl refl) (omega arith)
      knows_id knows_eid

receive-ne-stuck_example :
    (receive 5 0 bad_frame [] service ≢ stuck)
    × ((bytes : Bytes) → parse_topo bytes ≢ err out_of_fuel)
receive-ne-stuck_example = receive-ne-stuck 5 0 bad_frame [] service

receive_overlong_example :
    receive 5 0 (with_crc (id ++ 0x10 ∷ (put_uint16_le (7 * 2 ^ 2 + 1) ++ 200 ∷ []))) [] service
    ≡ panicked
receive_overlong_example =
    receive_overlong 5 0 7 200 id [] [] dev service (omega arith) (omega arith) (omega arith) refl
      (omega arith) tt knows_id

-- A response with one parameter, control type 2, which is lost.
get_device_value-polled_example :
    (after : Gateway) × (receive 5 0
        (with_crc (id ++ 0x14 ∷ 4 ∷ (encoded [] ++ entry_of entry)))
        []
        service
      ≡ done after)
    × ((other s : Text)
        → get_device_value other s after.values ≡ after_frame 5 dev [] service other s)
get_device_value-polled_example =
    get_device_value-polled id [] [] entry 5 0 4 4 dev service refl (omega arith) tt
      (entry-WellFormed, λ e. cc) (inl refl) refl (omega arith) knows_id

abbrev nitrogen : ParamInfo
nitrogen = record {
  name = shared_name;
  unit = "μL/L";
  byte_len = some 4;
  data_type = "float32";
  parse = parse_float32;
}

-- The gas in the oil and the gas in the air.
lookup_param_info-name_example :
    (2 * 2 ^ 11 + 144 ≡ 2 * 2 ^ 11 + 207) ⊎ (nitrogen.name ≡ shared_name)
lookup_param_info-name_example =
    lookup_param_info-name (2 * 2 ^ 11 + 144) (2 * 2 ^ 11 + 207) nitrogen nitrogen (omega arith)
      (omega arith) (unfold lookup_param_info in refl) (unfold lookup_param_info in refl) refl
