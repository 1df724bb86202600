-- ===== src/Examples/DriverRuns.antt =====
-- The theorems on internal/driver and on the defaults of internal/config at concrete inputs.
use device_wiresink_go.Prelude.{
  ℕ, ◌+◌, ◌^◌, ◌≡◌, ◌⊎◌, inl, refl, arith, true, false, List, [], ◌∷◌, ◌++◌, none, some,
  if◌then◌else◌, Text, Assoc, codes, text_eq, lookup,
}
use device_wiresink_go.Prelude.Outcome.{done, Result, ok, err, no_eid, no_device, overflow}
use device_wiresink_go.Wire.{with_crc}
use device_wiresink_go.Value.{
  Value, uint8, uint16, uint32, uint64, int16, int64, float64, string, topology,
}
use device_wiresink_go.State.{Gateway, Report}
use device_wiresink_go.Hex.{itoa}
use device_wiresink_go.Mqtt.Egress.{publication}
use device_wiresink_go.Strconv.{Runtime}
use device_wiresink_go.Config.Values.{Values, get_device_value}
use device_wiresink_go.Config.Defaults.{
  DeviceResource, Files, Registry, profile_of, init_device_resources,
}
use device_wiresink_go.Config.Defaults.Loaded.{
  default_of, loaded, get_device_value-init_device_resources,
}
use device_wiresink_go.Config.Params.Row.{parse_uint16}
use device_wiresink_go.Config.Decode.{parse_value}
use device_wiresink_go.Driver.Commands.{handle_write_commands}
use device_wiresink_go.Driver.Commands.Frames.{sink_bytes, publish, sent}
use device_wiresink_go.Driver.Commands.Published.{
  any_command, handle_write_commands-known, handle_write_commands-refused,
}
use device_wiresink_go.Driver.Coerce.{
  uint8_type, uint16_type, uint32_type, uint64_type, int64_type, coerce_to_type, coerce_to,
}
use device_wiresink_go.Driver.Coerce.Ranges.{negsuc, Converts}
use device_wiresink_go.Driver.Coerce.Integers.{coerce_to_type-integer}
use device_wiresink_go.Driver.Coerce.Texts.{coerce_to_type-itoa}
use device_wiresink_go.Driver.Devices.{Metadata, add_device, update_device, remove_device}
use device_wiresink_go.Driver.Devices.Defaults.{add_device-defaults}
use device_wiresink_go.Driver.Devices.Removal.{Removed, remove_device-Removed}
use device_wiresink_go.Driver.Readings.{CommandValue, CommandRequest, handle_read_commands}
use device_wiresink_go.Driver.Readings.Answers.{
  Keeps, AllAnswered, handle_read_commands-AllAnswered,
}
use device_wiresink_go.Driver.Reporting.{async_reporting}
use device_wiresink_go.Driver.Reporting.Reported.{
  reportable, Accepts, async_reporting-reportable, async_reporting-dropped,
}
use device_wiresink_go.Driver.Health.{new_state, health_tick}
use device_wiresink_go.Driver.Health.Overdue.{new_state-overdue, get_device_value-health_tick}
use device_wiresink_go.Control.Entries.{Entry}
use device_wiresink_go.Config.Params.{lookup_param_info}
use device_wiresink_go.Parser.Params.{decode_param}
use device_wiresink_go.Parser.Receive.{receive}
use device_wiresink_go.Parser.Receive.Accepted.{data_frame}
use device_wiresink_go.Parser.Receive.Updated.{last_value}
use device_wiresink_go.Driver.Readings.Received.{answer, handle_read_commands-receive}
use device_wiresink_go.Examples.{id, knows_id, sensor, dev, service, table, sprint}

-- A runtime in which every float is 0.
abbrev runtime : Runtime
runtime = record {
  sprint = sprint;
  parse_float = λ bits s. none;
  widen = λ x. 0;
  narrow = λ x. 0;
  to_int64 = λ x. 0;
  to_uint64 = λ x. 0;
  of_int64 = λ x. 0;
  of_uint64 = λ x. 0;
  is_nonzero = λ x. false;
  is_nonneg = λ x. true;
  fits_float32 = λ x. true;
}

-- An SDK that takes every value.
abbrev new_command_value : Text → Text → Value → Result CommandValue
new_command_value name type v = ok (record { resource = name; type = type; value = v })

new_command_value-Keeps : Keeps new_command_value
new_command_value-Keeps name type v cv e = ground arith

new_command_value-Accepts : Accepts new_command_value
new_command_value-Accepts = ((λ name n. (refl, refl, refl, refl)), (λ name t. refl))

abbrev clock : ℕ → ℕ
clock i = 1700000000

handle_write_commands-known_example :
    handle_write_commands clock dev (codes "Reset_Set" ∷ codes "ID_Query" ∷ []) (1 ∷ 0 ∷ []) service
    ≡ (publish (publication (with_crc (sink_bytes ++ 0x04 ∷ 0x0C ∷ [])) ∷ []) service, none)
unfolding lookup text_eq sent
handle_write_commands-known_example =
    handle_write_commands-known clock dev (codes "Reset_Set" ∷ codes "ID_Query" ∷ []) (1 ∷ 0 ∷ [])
      (string sensor) service (unfold get_device_value lookup text_eq in refl) refl

handle_write_commands-refused_example :
    handle_write_commands clock (codes "other") (codes "Reset_Set" ∷ []) (1 ∷ []) service
    ≡ (service, some (no_eid (codes "other")))
unfolding lookup text_eq any_command
handle_write_commands-refused_example =
    handle_write_commands-refused clock (codes "other") (codes "Reset_Set" ∷ []) (1 ∷ []) service
      (inl (unfold get_device_value lookup text_eq in refl))

coerce_to_type-integer_example :
    Converts uint16_type (negsuc 0) (coerce_to_type runtime uint16_type (int16 0xFFFF))
coerce_to_type-integer_example =
    coerce_to_type-integer runtime uint16_type (int16 0xFFFF) (negsuc 0) tt (omega arith) refl

coerce_to_type-itoa_example :
    (coerce_to_type runtime uint8_type (string (itoa 300)) ≡ err (overflow (codes "uint8")))
    × (coerce_to_type runtime uint16_type (string (itoa 300)) ≡ ok (uint16 300))
    × (coerce_to_type runtime uint32_type (string (itoa 300)) ≡ ok (uint32 300))
    × (coerce_to_type runtime uint64_type (string (itoa 300)) ≡ ok (uint64 300))
    × (coerce_to_type runtime int64_type (string (itoa 300)) ≡ ok (int64 300))
coerce_to_type-itoa_example = coerce_to_type-itoa runtime 300 (omega arith)

-- A profile with one resource, and defaults that are their texts.
abbrev profile : List DeviceResource
profile =
    record { name = codes "period"; value_type = codes "String"; default_value = codes "60" } ∷ []

abbrev pub as_text : Text → Text → Value
as_text default type = string default

abbrev pub sdk : Metadata
sdk = record { get_device_by_name = λ d. some d; get_profile_by_name = λ p. some profile }

add_device-defaults_example :
    (values : Values) × (add_device sdk as_text dev service
      ≡ (record service { values = values }, none))
    × (update_device sdk as_text dev service ≡ (record service { values = values }, none))
    × ((e s : Text)
        → get_device_value e s values ≡ (
            if text_eq dev e
            then (if text_eq (codes "period") s
                then some (string (codes "60"))
                else get_device_value e s table)
            else get_device_value e s table))
unfolding default_of
add_device-defaults_example = add_device-defaults as_text sdk dev dev profile service refl refl

remove_device-Removed_example :
    ((resources : Assoc Value) × (after : Gateway) × (lookup dev table ≡ some resources)
      × (remove_device dev service ≡ (after, none))
      × Removed dev service after)
    ⊎ ((lookup dev table ≡ none) × (remove_device dev service ≡ (service, some (no_device dev))))
remove_device-Removed_example = remove_device-Removed dev service (tt, unfold lookup in refl)

abbrev files : Files
files = record {
  read_file = λ path. ok path;
  profile_path = λ dir name. dir ++ name;
  devices_yaml = λ raw. ok (record { name = dev; profile_name = codes "profile" } ∷ []);
  profile_yaml = λ raw. ok profile;
}

abbrev nothing_loaded : Registry
nothing_loaded = record { resources = []; values = [] }

get_device_value-init_device_resources_example :
    get_device_value dev
      (codes "period")
      (init_device_resources as_text files [] [] nothing_loaded).0.values
    ≡ some (string (codes "60"))
unfolding loaded default_of profile_of text_eq
get_device_value-init_device_resources_example =
    get_device_value-init_device_resources as_text files [] [] []
      (record { name = dev; profile_name = codes "profile" } ∷ []) dev (codes "period")
      nothing_loaded refl refl

abbrev eid_request : CommandRequest
eid_request = record { resource = codes "eid"; type = codes "String" }

abbrev eid_answer : CommandValue
eid_answer = record { resource = codes "eid"; type = codes "String"; value = string sensor }

abbrev topology_request : CommandRequest
topology_request = record { resource = codes "topologyDiagram"; type = codes "Object" }

abbrev topology_answer : CommandValue
topology_answer = record {
  resource = codes "topologyDiagram";
  type = codes "Object";
  value = topology [];
}

handle_read_commands-AllAnswered_example :
    AllAnswered runtime dev service
      (eid_request ∷ topology_request ∷ [])
      (eid_answer ∷ topology_answer ∷ [])
handle_read_commands-AllAnswered_example =
    handle_read_commands-AllAnswered runtime new_command_value dev
      (eid_request ∷ topology_request ∷ []) service (eid_answer ∷ topology_answer ∷ [])
      new_command_value-Keeps (unfold handle_read_commands coerce_to lookup text_eq in refl)

abbrev some_values : Report
some_values = record {
  device = dev;
  source = codes "source";
  values = (codes "a", uint16 513) ∷ (codes "b", float64 0) ∷ (codes "c", string sensor) ∷ [];
}

abbrev reported : List CommandValue
reported =
    record { resource = codes "b"; type = codes "Float64"; value = float64 0 }
    ∷ record { resource = codes "c"; type = codes "String"; value = string sensor }
    ∷ []

async_reporting-reportable_example :
    async_reporting new_command_value some_values []
    ≡ record { device = dev; source = codes "source"; values = reported } ∷ []
unfolding reportable
async_reporting-reportable_example =
    async_reporting-reportable new_command_value some_values [] new_command_value-Accepts

abbrev one_value : Report
one_value = record { device = dev; source = codes "source"; values = (codes "a", uint16 513) ∷ [] }

async_reporting-dropped_example : async_reporting new_command_value one_value [] ≡ []
async_reporting-dropped_example =
    async_reporting-dropped new_command_value one_value []
      ((parse_uint16, 1 ∷ 2 ∷ [], (λ e. cc), unfold parse_value in refl), tt)

new_state-overdue_example : new_state 2000000001 0 1 ≡ 1
new_state-overdue_example =
    new_state-overdue 2000000001 0 1 (omega arith) (omega arith) (omega arith)

abbrev silent : Values
silent = (dev, (codes "lastDataTimestamp", int64 5) ∷ (codes "period", uint32 1) ∷ []) ∷ []

get_device_value-health_tick_example :
    get_device_value dev (codes "state") (health_tick 3000000000 silent) ≡ some (uint8 1)
unfolding get_device_value lookup text_eq
get_device_value-health_tick_example =
    get_device_value-health_tick 3000000000 dev (codes "state") silent (omega arith)
      (omega arith, omega arith)

-- A humidity of 60, with a length of one byte.
abbrev humidity : Entry
humidity = record { param_type = 2 ^ 11 + 7; len_flag = 1; contents = 60 ∷ 0 ∷ [] }

abbrev humidity_request : CommandRequest
humidity_request = record { resource = codes "Humidity1"; type = codes "Uint16" }

handle_read_commands-receive_example :
    (after : Gateway) × (receive 5 0 (data_frame id (humidity ∷ []) 0) [] service ≡ done after)
    × (handle_read_commands runtime new_command_value dev (humidity_request ∷ []) after
        ≡ answer runtime new_command_value (uint16 60) humidity_request)
handle_read_commands-receive_example =
    handle_read_commands-receive runtime new_command_value id [] (humidity ∷ []) 5 0 0 dev
      humidity_request (uint16 60) service refl (omega arith)
      ((omega arith, omega arith, omega arith), tt) (inl refl) (omega arith) knows_id
      (unfold text_eq in refl)
      (unfold last_value decode_param lookup_param_info parse_value text_eq in refl)
