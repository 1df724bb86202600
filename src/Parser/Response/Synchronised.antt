-- ===== src/Parser/Response/Synchronised.antt =====
-- `resetCommands` of internal/config/param_table_parser_response.go: the answer to a request for the
-- time goes to `WriteChan` as an AT command.
use device_wiresink_go.Prelude.{
  ℕ, ◌%◌, ◌^◌, ◌≡◌, ◌≢◌, refl, sym, ◌∙◌, ◌⊎◌, arith, [], ◌++◌, ◌<◌, Bool-cases, ltb, length,
  length-append, ap, ◌∷◌, Bytes, Text, inl, inr,
}
use device_wiresink_go.Prelude.Outcome.{
  Outcome, done, panicked, blocked, stuck, ◌>>=◌, >>=-ne-stuck, >>=-eq-done, Error, Result, ok, err,
  Result-cases,
}
use device_wiresink_go.State.{Frame, Gateway}
use device_wiresink_go.Hex.{decode_string}
use device_wiresink_go.Mqtt.{sink_eid}
use device_wiresink_go.Config.Tool.{
  at_command, write_chan_capacity, send_at_command, rest_command_frame, rest_command_build_frame,
}
use device_wiresink_go.Config.Tool.Queue.{Fills}
use device_wiresink_go.Parser.Response.{device_or_empty, eid_of_device, reset_commands}

abbrev pub sink_key : Bytes
sink_key = 0x23 ∷ 0x8A ∷ 0x08 ∷ 0x41 ∷ 0xD8 ∷ 0x28 ∷ []

decode-sink_eid : decode_string sink_eid ≡ ok sink_key
unfolding decode_string
decode-sink_eid = refl

looked_at :
    (o : Outcome Gateway) (g : Gateway)
    → (o >>= (λ sent. done (ok sent)) >>= λ (r : Result Gateway).
        done (elim r [ err e ↦ ok g | ok sent ↦ ok sent ]))
      ≡ (o >>= λ sent. done (ok sent))
looked_at (done after) g = refl
looked_at panicked g = refl
looked_at blocked g = refl
looked_at stuck g = refl

-- The state with one AT command more.
abbrev pub queued : Text → Bytes → Gateway → Gateway
queued dst payload g = record g { at_commands = g.at_commands ++ at_command dst payload ∷ [] }

-- For a device whose EID is a string, the time is sent to it.
pub reset_commands-known :
    (seconds : ℕ) (frame : Frame) (eid : Text) (g : Gateway)
    → eid_of_device (device_or_empty frame.sensor_id g.mapping) g ≡ ok eid
    → reset_commands seconds frame g ≡ (
        send_at_command eid (rest_command_frame sink_key 1 (seconds % 2 ^ 32)) g >>= λ sent.
        done (ok sent))
unfolding reset_commands rest_command_build_frame
reset_commands-known seconds frame eid g known =
    rw (reset_commands, known, decode-sink_eid)
      (looked_at (send_at_command eid (rest_command_frame sink_key 1 (seconds % 2 ^ 32)) g) g)

pub reset_commands-refused :
    (seconds : ℕ) (frame : Frame) (e : Error) (g : Gateway)
    → eid_of_device (device_or_empty frame.sensor_id g.mapping) g ≡ err e
    → reset_commands seconds frame g ≡ done (err e)
unfolding reset_commands
reset_commands-refused seconds frame e g unknown = rw (reset_commands, unknown) refl

send_at_command-ne-stuck :
    (dst : Text) (payload : Bytes) (g : Gateway) → send_at_command dst payload g ≢ stuck
unfolding send_at_command
send_at_command-ne-stuck dst payload g e = ground arith

pub reset_commands-ne-stuck :
    (seconds : ℕ) (frame : Frame) (g : Gateway) → reset_commands seconds frame g ≢ stuck
reset_commands-ne-stuck seconds frame g =
    elim (Result-cases (eid_of_device (device_or_empty frame.sensor_id g.mapping) g)) [
      | inl (eid, known) ↦ rw (reset_commands-known seconds frame eid g known) (
          >>=-ne-stuck (send_at_command eid (rest_command_frame sink_key 1 (seconds % 2 ^ 32)) g) _
            (send_at_command-ne-stuck eid _ g) (λ _ _ e. cc))
      | inr (problem, unknown) ↦
          rw (reset_commands-refused seconds frame problem g unknown) (λ e. cc)
    ]

send_at_command-queued :
    (dst : Text) (payload : Bytes) (g after : Gateway)
    → send_at_command dst payload g ≡ done after
    → (length g.at_commands < write_chan_capacity) × (queued dst payload g ≡ after)
unfolding send_at_command
send_at_command-queued dst payload g after e = elim (Bool-cases g.write_chan_closed) [
  | inl closed ↦ cc
  | inr still ↦ elim (Bool-cases (ltb (length g.at_commands) write_chan_capacity)) [
    | inl room ↦ (ground (arith, room), cc)
    | inr full ↦ cc
  ]
]

result-injective : (r r' : Result Gateway) → done r ≡ done r' → r' ≡ r
result-injective r r' e = cc

queued-Fills :
    (eid : Text) (payload : Bytes) (g : Gateway)
    → length g.at_commands < write_chan_capacity
    → Fills g (queued eid payload g)
queued-Fills eid payload g room =
    let longer = length-append g.at_commands (at_command eid payload ∷ []) in
    (omega arith, λ _. omega arith, refl)

-- The state after the handler: one AT command more, or nothing new.
pub reset_commands-Fills :
    (seconds : ℕ) (frame : Frame) (g : Gateway) (r : Result Gateway)
    → reset_commands seconds frame g ≡ done r
    → ((e : Error) × (r ≡ err e))
      ⊎ ((eid : Text) × (payload : Bytes) × (r ≡ ok (queued eid payload g))
          × Fills g (queued eid payload g))
reset_commands-Fills seconds frame g r e =
    elim (Result-cases (eid_of_device (device_or_empty frame.sensor_id g.mapping) g)) [
      | inl (eid, known) ↦
          let payload : Bytes = rest_command_frame sink_key 1 (seconds % 2 ^ 32) in
          let (after, sent, same) =
            >>=-eq-done (send_at_command eid payload g) _
              (sym (reset_commands-known seconds frame eid g known) ∙ e) in
          let (room, added) = send_at_command-queued eid payload g after sent in
          inr (
            eid,
            payload,
            result-injective _ r same ∙ ap (λ (s : Gateway). ok s) (sym added),
            queued-Fills eid payload g room,
          )
      | inr (problem, unknown) ↦ inl (
        problem,
        result-injective _ r (sym (reset_commands-refused seconds frame problem g unknown) ∙ e),
      )
    ]
