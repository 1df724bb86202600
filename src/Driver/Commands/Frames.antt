-- ===== src/Driver/Commands/Frames.antt =====
-- The frames that the write commands of internal/driver publish.
use device_wiresink_go.Prelude.{
  ℕ, ◌+◌, ◌%◌, ◌^◌, ◌==◌, ◌&&◌, ◌≡◌, ◌≢◌, inl, inr, refl, sym, subst, arith, Bool, true, false,
  List, [], ◌∷◌, ◌++◌, Option, none, some, if◌then◌else◌, Bool-cases, All, All-append, IsByte,
  Bytes, Text, codes, text_eq, text_eq_iff, lookup, Assoc, ==_iff,
}
use device_wiresink_go.Prelude.Outcome.{Result, ok}
use device_wiresink_go.Value.{Value}
use device_wiresink_go.Hex.{decode_string}
use device_wiresink_go.Wire.{with_crc, put_uint32_le, head_byte, ctrl_byte}
use device_wiresink_go.State.{Gateway, Publication}
use device_wiresink_go.Config.Values.{get_device_value}
use device_wiresink_go.Mqtt.Egress.{publication, send_frame-publication}
use device_wiresink_go.Control.{
  build_parameter_query_frame, build_alarm_parameter_query_frame, build_monitoring_data_query_frame,
  build_general_param_query_frame, build_reset_request, build_time_param_frame,
  build_sensor_id_frame,
}
use device_wiresink_go.Driver.Commands.{
  handle_time_parameter_set, handle_reset_command, handle_time_parameter_query, handle_id_query,
  handle_id_moni_data_query, handle_id_alarm_para_query, handle_gene_para_query,
  handle_router_parameter_query, Ran, ◌>=>◌, sink_id, send_to, as_string, or_nil, run_command,
}

abbrev pub sink_bytes : Bytes
sink_bytes = 0x23 ∷ 0x8A ∷ 0x08 ∷ 0x41 ∷ 0xD8 ∷ 0x28 ∷ []

-- The head byte, the control byte and the parameters that each command stands for.
abbrev pub command_bodies : ℕ → Assoc Bytes
command_bodies seconds =
    (codes "Time_Parameter_Query", 0x04 ∷ 0x08 ∷ 0 ∷ 0 ∷ 0 ∷ 0 ∷ [])
    ∷ (codes "Time_Parameter_Set", 0x04 ∷ 0x09 ∷ put_uint32_le (seconds % 2 ^ 32))
    ∷ (codes "Reset_Set", 0x04 ∷ 0x0C ∷ [])
    ∷ (codes "ID_Query", 0x04 ∷ 0x0A ∷ 0 ∷ 0 ∷ 0 ∷ 0 ∷ 0 ∷ 0 ∷ [])
    ∷ (codes "General_Parameter_Query", 0xF4 ∷ 0x02 ∷ [])
    ∷ (codes "Alarm_Parameter_Query", 0xF4 ∷ 0x06 ∷ [])
    ∷ (codes "Monitoring_Data_Query", 0xF4 ∷ 0x04 ∷ [])
    ∷ (codes "topologyDiagramQuery", 0x14 ∷ 0x04 ∷ 0x20 ∷ 0x00 ∷ [])
    ∷ []

-- What is published for a request: the frame of its command, where its value is 1.
abbrev pub answer : Option Bytes → ℕ → List Publication
answer none v = []
answer (some body) v = if v == 1 then publication (with_crc (sink_bytes ++ body)) ∷ [] else []

-- What is published for a list of requests, in their order.
unfoldable pub sent : (ℕ → ℕ) → ℕ → List Text → List ℕ → List Publication
sent clock i [] params = []
sent clock i (name ∷ names) [] = []
sent clock i (name ∷ names) (v ∷ params) =
    answer (lookup name (command_bodies (clock i))) v ++ sent clock (i + 1) names params

abbrev pub publish : List Publication → Gateway → Gateway
publish news g = record g { published = g.published ++ news }

pub with_crc-IsByte : (buf : Bytes) → All IsByte buf → All IsByte (with_crc buf)
unfolding with_crc
with_crc-IsByte buf h = All-append IsByte buf _ h (omega arith)

with_crc-ne-nil : (b : ℕ) (buf : Bytes) → with_crc (b ∷ buf) ≢ []
unfolding with_crc
with_crc-ne-nil b buf e = cc

sink_id_lem : sink_id ≡ ok sink_bytes
unfolding sink_id decode_string
sink_id_lem = refl

pub send_to_lem :
    (build : Bytes → Result Bytes) (body : Bytes) (device : Text) (eid : Value) (g : Gateway)
    → get_device_value device (codes "eid") g.values ≡ some eid
    → build sink_bytes ≡ ok (with_crc (sink_bytes ++ body))
    → All IsByte body
    → send_to build device g ≡ (publish (publication (with_crc (sink_bytes ++ body)) ∷ []) g, none)
unfolding send_to
send_to_lem build body device eid g known built all =
    let sends =
      send_frame-publication (as_string eid) (with_crc (sink_bytes ++ body)) g
        (with_crc-IsByte (sink_bytes ++ body) (All-append IsByte sink_bytes body (omega arith) all))
        (with_crc-ne-nil 0x23 _) in
    ground (arith, sink_id_lem)

and_false : (b : Bool) → (b && false) ≡ false
and_false true = refl
and_false false = refl

pub answer-off : (o : Option Bytes) (v : ℕ) → (v == 1) ≡ false → answer o v ≡ []
answer-off none v off = refl
answer-off (some body) v off = rw off refl

flip : (a b : Text) → text_eq a b ≡ false → text_eq b a ≡ false
flip a b h = ground (arith, text_eq_iff a b, text_eq_iff b a)

idle : (m : Ran) → (m >=> λ g. (g, none)) ≡ m
idle (g, none) = refl
idle (g, some e) = refl

-- What one request does, by what each command does and what it is to do otherwise.
module _ (seconds : ℕ) (device : Text) (g : Gateway) (reply : Option Bytes → ℕ → Ran)
    (off : (o : Option Bytes) (v : ℕ) → (v == 1) ≡ false → reply o v ≡ (g, none))
    (missing : reply none 1 ≡ (g, none))
    (replies : (build : Bytes → Result Bytes) (body : Bytes)
      → build sink_bytes ≡ ok (with_crc (sink_bytes ++ body))
      → All IsByte body
      → send_to build device g ≡ reply (some body) 1) where
  abbrev Answers : Text → ℕ → Type 0
  Answers resource v =
      run_command seconds device resource v g ≡ reply (lookup resource (command_bodies seconds)) v

  time_query : Answers (codes "Time_Parameter_Query") 1
  unfolding run_command text_eq lookup handle_time_parameter_query build_time_param_frame head_byte
      ctrl_byte put_uint32_le
  time_query =
      rw
        (replies (λ sensor. or_nil (build_time_param_frame sensor 0 0))
          (0x04 ∷ 0x08 ∷ 0 ∷ 0 ∷ 0 ∷ 0 ∷ []) refl (omega arith))
        (simp idle)

  time_set : Answers (codes "Time_Parameter_Set") 1
  unfolding run_command text_eq lookup handle_time_parameter_set build_time_param_frame head_byte
      ctrl_byte put_uint32_le
  time_set =
      rw
        (replies (λ sensor. or_nil (build_time_param_frame sensor 1 (seconds % 2 ^ 32)))
          (0x04 ∷ 0x09 ∷ put_uint32_le (seconds % 2 ^ 32)) refl (omega arith))
        (simp idle)

  reset : Answers (codes "Reset_Set") 1
  unfolding run_command text_eq lookup handle_reset_command build_reset_request head_byte ctrl_byte
      put_uint32_le
  reset =
      rw
        (replies (λ sensor. or_nil (build_reset_request sensor)) (0x04 ∷ 0x0C ∷ []) refl
          (omega arith))
        (simp idle)

  id_query : Answers (codes "ID_Query") 1
  unfolding run_command text_eq lookup handle_id_query build_sensor_id_frame head_byte ctrl_byte
      put_uint32_le
  id_query =
      rw
        (replies (λ sensor. build_sensor_id_frame sensor 0 (0 ∷ 0 ∷ 0 ∷ 0 ∷ 0 ∷ 0 ∷ []))
          (0x04 ∷ 0x0A ∷ 0 ∷ 0 ∷ 0 ∷ 0 ∷ 0 ∷ 0 ∷ []) refl (omega arith))
        (simp idle)

  general_query : Answers (codes "General_Parameter_Query") 1
  unfolding run_command text_eq lookup handle_gene_para_query build_parameter_query_frame head_byte
      ctrl_byte put_uint32_le
  general_query =
      rw (replies build_parameter_query_frame (0xF4 ∷ 0x02 ∷ []) refl (omega arith)) (simp idle)

  alarm_query : Answers (codes "Alarm_Parameter_Query") 1
  unfolding run_command text_eq lookup handle_id_alarm_para_query build_alarm_parameter_query_frame
      head_byte ctrl_byte put_uint32_le
  alarm_query =
      rw (replies build_alarm_parameter_query_frame (0xF4 ∷ 0x06 ∷ []) refl (omega arith))
        (simp idle)

  monitoring_query : Answers (codes "Monitoring_Data_Query") 1
  unfolding run_command text_eq lookup handle_id_moni_data_query build_monitoring_data_query_frame
      head_byte ctrl_byte put_uint32_le
  monitoring_query =
      rw (replies build_monitoring_data_query_frame (0xF4 ∷ 0x04 ∷ []) refl (omega arith))
        (simp idle)

  topology_query : Answers (codes "topologyDiagramQuery") 1
  unfolding run_command text_eq lookup handle_router_parameter_query build_general_param_query_frame
      head_byte ctrl_byte put_uint32_le
  topology_query =
      rw
        (replies (λ sensor. build_general_param_query_frame sensor 0x0800)
          (0x14 ∷ 0x04 ∷ 0x20 ∷ 0x00 ∷ []) refl (omega arith))
        refl

  -- A value other than 1 does nothing.
  off_lem : (resource : Text) (v : ℕ) → (v == 1) ≡ false → Answers resource v
  unfolding run_command
  off_lem resource v not_one =
      simp (not_one, and_false, off (lookup resource (command_bodies seconds)) v not_one)

  named :
      (name resource : Text)
      → Answers name 1
      → (text_eq resource name ≡ false → Answers resource 1)
      → Answers resource 1
  named name resource hit miss = elim (Bool-cases (text_eq resource name)) [
    | inl same ↦ subst (λ (n : Text). Answers n 1) (sym ((text_eq_iff resource name).0 same)) hit
    | inr other ↦ miss other
  ]

  one_lem : (resource : Text) → Answers resource 1
  unfolding run_command lookup
  one_lem resource = named (codes "Time_Parameter_Query") resource time_query (λ no_time_query.
      named (codes "Time_Parameter_Set") resource time_set (λ no_time_set.
        named (codes "Reset_Set") resource reset (λ no_reset.
          named (codes "ID_Query") resource id_query (λ no_id_query.
            named (codes "General_Parameter_Query") resource general_query (λ no_general_query.
              named (codes "Alarm_Parameter_Query") resource alarm_query (λ no_alarm_query.
                named (codes "Monitoring_Data_Query") resource monitoring_query
                  (λ no_monitoring_query.
                    named (codes "topologyDiagramQuery") resource topology_query
                      (λ no_topology_query. simp (
                        missing,
                        no_time_query,
                        flip resource _ no_time_query,
                        no_time_set,
                        flip resource _ no_time_set,
                        no_reset,
                        flip resource _ no_reset,
                        no_id_query,
                        flip resource _ no_id_query,
                        no_general_query,
                        flip resource _ no_general_query,
                        no_alarm_query,
                        flip resource _ no_alarm_query,
                        no_monitoring_query,
                        flip resource _ no_monitoring_query,
                        no_topology_query,
                        flip resource _ no_topology_query,
                      )))))))))

  pub run_command_lem : (resource : Text) (v : ℕ) → Answers resource v
  run_command_lem resource v = elim (Bool-cases (v == 1)) [
    | inl one ↦ subst (λ (n : ℕ). Answers resource n) (sym ((==_iff v 1).0 one)) (one_lem resource)
    | inr other ↦ off_lem resource v other
  ]
