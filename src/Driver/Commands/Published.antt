-- ===== src/Driver/Commands/Published.antt =====
-- What the write commands of internal/driver publish.
use device_wiresink_go.Prelude.{
  ℕ, ◌+◌, ◌==◌, ◌||◌, ◌≡◌, ◌≢◌, ◌⊎◌, inl, inr, refl, ◌∙◌, arith, Bool, true, false, List, [], ◌∷◌,
  append-nil, append_assoc, Option, none, some, if◌then◌else◌, length, Bytes, Text, codes, lookup,
  ==_iff,
}
use device_wiresink_go.Prelude.Outcome.{Result, no_eid, count_mismatch}
use device_wiresink_go.Value.{Value}
use device_wiresink_go.State.{Gateway, Publication}
use device_wiresink_go.Config.Values.{get_device_value}
use device_wiresink_go.Driver.Commands.{
  Ran, ◌>=>◌, send_to, run_command, write_loop, handle_write_commands,
}
use device_wiresink_go.Driver.Commands.Frames.{
  command_bodies, answer, sent, publish, answer-off, send_to_lem, run_command_lem,
}

run_command-known :
    (seconds : ℕ) (device resource : Text) (v : ℕ) (eid : Value) (g : Gateway)
    → get_device_value device (codes "eid") g.values ≡ some eid
    → run_command seconds device resource v g
      ≡ (publish (answer (lookup resource (command_bodies seconds)) v) g, none)
run_command-known seconds device resource v eid g known =
    run_command_lem seconds device g (λ o n. (publish (answer o n) g, none))
      (λ o n h. simp (answer-off o n h, append-nil)) (simp append-nil)
      (λ build body e all. send_to_lem build body device eid g known e all) resource v

write_loop-known :
    (clock : ℕ → ℕ) (i : ℕ) (device : Text) (names : List Text) (params : List ℕ) (eid : Value)
    (g : Gateway)
    → get_device_value device (codes "eid") g.values ≡ some eid
    → write_loop clock i device names params g ≡ (publish (sent clock i names params) g, none)
unfolding write_loop sent
write_loop-known clock i device [] params eid g known = simp append-nil
write_loop-known clock i device (name ∷ names) [] eid g known = simp append-nil
write_loop-known clock i device (name ∷ names) (v ∷ params) eid g known =
    let news : List Publication = answer (lookup name (command_bodies (clock i))) v in
    rw (run_command-known (clock i) device name v eid g known) (
      write_loop-known clock (i + 1) device names params eid (publish news g) known
      ∙ simp append_assoc)

-- For a device with an EID a list of write commands publishes the frame of each command whose value
-- is 1, in the order of the requests, with the bytes that the table `command_bodies` lists behind
-- the ID of the sink, and changes nothing else; it ends without an error.
pub handle_write_commands-known :
    (clock : ℕ → ℕ) (device : Text) (names : List Text) (params : List ℕ) (eid : Value)
    (g : Gateway)
    → get_device_value device (codes "eid") g.values ≡ some eid
    → length names ≡ length params
    → handle_write_commands clock device names params g
      ≡ (publish (sent clock 0 names params) g, none)
unfolding handle_write_commands
handle_write_commands-known clock device names params eid g known same =
    ground (arith, write_loop-known clock 0 device names params eid g known)

-- Is any of the requests a command whose value is 1?
abbrev asks : Option Bytes → ℕ → Bool
asks none v = false
asks (some body) v = v == 1

unfoldable pub any_command : (ℕ → ℕ) → ℕ → List Text → List ℕ → Bool
any_command clock i [] params = false
any_command clock i (name ∷ names) [] = false
any_command clock i (name ∷ names) (v ∷ params) =
    asks (lookup name (command_bodies (clock i))) v || any_command clock (i + 1) names params

abbrev refused : Text → Bool → Gateway → Ran
refused device asked g = (g, if asked then some (no_eid device) else none)

send_to-unknown :
    (build : Bytes → Result Bytes) (device : Text) (g : Gateway)
    → get_device_value device (codes "eid") g.values ≡ none
    → send_to build device g ≡ (g, some (no_eid device))
unfolding send_to
send_to-unknown build device g unknown = rw (send_to, unknown) refl

run_command-unknown :
    (seconds : ℕ) (device resource : Text) (v : ℕ) (g : Gateway)
    → get_device_value device (codes "eid") g.values ≡ none
    → run_command seconds device resource v g
      ≡ refused device (asks (lookup resource (command_bodies seconds)) v) g
run_command-unknown seconds device resource v g unknown =
    run_command_lem seconds device g (λ o n. refused device (asks o n) g) off refl
      (λ build body e all. send_to-unknown build device g unknown) resource v
  where
    off : (o : Option Bytes) (n : ℕ) → (n == 1) ≡ false → refused device (asks o n) g ≡ (g, none)
    off none n h = refl
    off (some body) n h = rw h refl

write_loop-unknown :
    (clock : ℕ → ℕ) (i : ℕ) (device : Text) (names : List Text) (params : List ℕ) (g : Gateway)
    → get_device_value device (codes "eid") g.values ≡ none
    → write_loop clock i device names params g ≡ refused device (any_command clock i names params) g
unfolding write_loop any_command
write_loop-unknown clock i device [] params g unknown = refl
write_loop-unknown clock i device (name ∷ names) [] g unknown = refl
write_loop-unknown clock i device (name ∷ names) (v ∷ params) g unknown =
    rw (run_command-unknown (clock i) device name v g unknown) (
      stops (asks (lookup name (command_bodies (clock i))) v)
        (write_loop-unknown clock (i + 1) device names params g unknown))
  where
    stops :
        (asked : Bool)
        → write_loop clock (i + 1) device names params g
          ≡ refused device (any_command clock (i + 1) names params) g
        → (refused device asked g >=> write_loop clock (i + 1) device names params)
          ≡ refused device (asked || any_command clock (i + 1) names params) g
    stops true ih = refl
    stops false ih = ih

-- For a device without an EID, and for lists of different lengths, a list of write commands
-- publishes nothing and changes nothing; it ends with an error where the lengths differ or a
-- command has the value 1, and without one otherwise.
pub handle_write_commands-refused :
    (clock : ℕ → ℕ) (device : Text) (names : List Text) (params : List ℕ) (g : Gateway)
    → (get_device_value device (codes "eid") g.values ≡ none) ⊎ (length names ≢ length params)
    → handle_write_commands clock device names params g ≡ (
      g,
      if length names == length params
          then (if any_command clock 0 names params then some (no_eid device) else none)
          else some (count_mismatch (length names) (length params)),
    )
unfolding handle_write_commands
handle_write_commands-refused clock device names params g (inl unknown) =
    ground (arith, write_loop-unknown clock 0 device names params g unknown)
handle_write_commands-refused clock device names params g (inr differ) =
    ground (arith, ==_iff (length names) (length params))
