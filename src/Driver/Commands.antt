-- ===== src/Driver/Commands.antt =====
-- The write commands of internal/driver: the handlers of command.go, and `HandleWriteCommands` of
-- wiresinkdriver.go.
pub mod Frames
pub mod Published
use device_wiresink_go.Prelude.{
  ℕ, ◌+◌, ◌%◌, ◌^◌, ◌==◌, ◌&&◌, List, [], ◌∷◌, Option, none, some, if◌then◌else◌, length, Bytes,
  Text, codes, text_eq,
}
use device_wiresink_go.Prelude.Outcome.{
  Error, no_eid, wrong_eid_length, count_mismatch, Result, ok, err,
}
use device_wiresink_go.Value.{Value, string}
use device_wiresink_go.Hex.{decode_string}
use device_wiresink_go.State.{Gateway}
use device_wiresink_go.Config.Values.{get_device_value}
use device_wiresink_go.Mqtt.{send_frame, sink_eid}
use device_wiresink_go.Control.{
  build_parameter_query_frame, build_alarm_parameter_query_frame, build_monitoring_data_query_frame,
  build_general_param_query_frame, build_reset_request, build_time_param_frame,
  build_sensor_id_frame,
}

-- The state behind a handler, with the error that it returned: what was done before an error stays.
abbrev pub Ran : Type 0
Ran = Gateway × Option Error

-- `eidStr, _ = eidValue.(string)`.
abbrev pub as_string : Value → Text
as_string (string s) = s
as_string _ = []

-- `hex.DecodeString` of the EID of the sink, with the check of its length.
unfoldable pub sink_id : Result Bytes
sink_id = elim (decode_string sink_eid) [
  | err e ↦ err e
  | ok bytes ↦ if length bytes == 6 then ok bytes else err (wrong_eid_length (length bytes))
]

-- What the handlers share: a device with an EID gets the frame that `build` makes for the sink.
unfoldable pub send_to : (Bytes → Result Bytes) → Text → Gateway → Ran
unfolding sink_id
send_to build device g = elim (get_device_value device (codes "eid") g.values) [
  | none ↦ (g, some (no_eid device))
  | some eid ↦ elim sink_id [
    | err e ↦ (g, some e)
    | ok sensor ↦ elim (build sensor) [
      | err e ↦ (g, some e)
      | ok frame ↦ (send_frame (as_string eid) frame g, none)
    ]
  ]
]

-- `reqFrame, _ := …`: the frame is nil where the builder refuses.
abbrev pub or_nil : Result Bytes → Result Bytes
or_nil (ok frame) = ok frame
or_nil (err e) = ok []

-- `seconds` is the clock.
unfoldable pub handle_time_parameter_set : ℕ → Text → Gateway → Ran
unfolding send_to
handle_time_parameter_set seconds =
    send_to (λ sensor. or_nil (build_time_param_frame sensor 1 (seconds % 2 ^ 32)))

unfoldable pub handle_reset_command : Text → Gateway → Ran
unfolding send_to
handle_reset_command = send_to (λ sensor. or_nil (build_reset_request sensor))

unfoldable pub handle_time_parameter_query : Text → Gateway → Ran
unfolding send_to
handle_time_parameter_query = send_to (λ sensor. or_nil (build_time_param_frame sensor 0 0))

unfoldable pub handle_id_query : Text → Gateway → Ran
unfolding send_to
handle_id_query = send_to (λ sensor. build_sensor_id_frame sensor 0 (0 ∷ 0 ∷ 0 ∷ 0 ∷ 0 ∷ 0 ∷ []))

unfoldable pub handle_id_moni_data_query : Text → Gateway → Ran
unfolding send_to
handle_id_moni_data_query = send_to build_monitoring_data_query_frame

unfoldable pub handle_id_alarm_para_query : Text → Gateway → Ran
unfolding send_to
handle_id_alarm_para_query = send_to build_alarm_parameter_query_frame

unfoldable pub handle_gene_para_query : Text → Gateway → Ran
unfolding send_to
handle_gene_para_query = send_to build_parameter_query_frame

unfoldable pub handle_router_parameter_query : Text → Gateway → Ran
unfolding send_to
handle_router_parameter_query = send_to (λ sensor. build_general_param_query_frame sensor 0x0800)

-- `if resName == name && v == 1 { if err := handler(…); err != nil { return err } }`.
unfoldable pub on_command : Text → Text → ℕ → (Gateway → Ran) → Gateway → Ran
on_command name resource v handler g =
    if text_eq resource name && v == 1 then handler g else (g, none)

-- The next step, where there was no error.
infixl 5 ◌>=>◌
abbrev pub ◌>=>◌ : Ran → (Gateway → Ran) → Ran
(g, none) >=> f = f g
(g, some e) >=> f = (g, some e)

-- The body of the loop of `HandleWriteCommands`. `v` is the value of the parameter as an int8.
unfoldable pub run_command : ℕ → Text → Text → ℕ → Gateway → Ran
unfolding on_command
run_command seconds device resource v g =
    on_command (codes "Time_Parameter_Query") resource v (handle_time_parameter_query device) g
    >=> on_command (codes "Time_Parameter_Set") resource v
        (handle_time_parameter_set seconds device)
    >=> on_command (codes "Reset_Set") resource v (handle_reset_command device)
    >=> on_command (codes "ID_Query") resource v (handle_id_query device)
    >=> on_command (codes "General_Parameter_Query") resource v (handle_gene_para_query device)
    >=> on_command (codes "Alarm_Parameter_Query") resource v (handle_id_alarm_para_query device)
    >=> on_command (codes "Monitoring_Data_Query") resource v (handle_id_moni_data_query device)
    >=> on_command (codes "topologyDiagramQuery") resource v (handle_router_parameter_query device)

-- The loop. `clock i` is the clock's reading in round `i`, and `Int8Value` of the SDK was applied to
-- the parameters: an int8 as its bit pattern, 0 where the parameter is no int8. Two lists of
-- different lengths do not come here.
unfoldable pub write_loop : (ℕ → ℕ) → ℕ → Text → List Text → List ℕ → Gateway → Ran
unfolding run_command
write_loop clock i device (resource ∷ requests) (v ∷ params) g =
    run_command (clock i) device resource v g >=> write_loop clock (i + 1) device requests params
write_loop clock i device [] params g = (g, none)
write_loop clock i device (resource ∷ requests) [] g = (g, none)

-- `HandleWriteCommands`, with the names of the requested resources.
unfoldable pub handle_write_commands : (ℕ → ℕ) → Text → List Text → List ℕ → Gateway → Ran
unfolding write_loop
handle_write_commands clock device requests params g =
    if length requests == length params
    then write_loop clock 0 device requests params g
    else (g, some (count_mismatch (length requests) (length params)))
