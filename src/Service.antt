-- ===== src/Service.antt =====
-- The service as a whole: the goroutines, the callbacks of the SDK and the timers that `Start` of
-- internal/driver/wiresinkdriver.go sets going, each of their turns one step. The queue of raw frames
-- stands between the handler of the broker's messages and the loop of `StartParser`.
pub mod Blocked
pub mod Commanded
pub mod Delivery
pub mod Invariant
pub mod Handled
pub mod Ignored
pub mod Received
pub mod Startup
pub mod Untouched
use device_wiresink_go.Prelude.{ℕ, ◌≡◌, Bool, true, false, List, ◌∷◌, some, Bytes, Text}
use device_wiresink_go.Prelude.Outcome.{done, blocked}
use device_wiresink_go.Value.{Value}
use device_wiresink_go.State.{Frame, Gateway}
use device_wiresink_go.Config.Mapping.{lookup_device_name}
use device_wiresink_go.Mqtt.Ingress.{JsonCodec, sink_msg_handler}
use device_wiresink_go.Parser.Receive.{on_data_received, receive}
use device_wiresink_go.Parser.Receive.Fields.{read_header}
use device_wiresink_go.Parser.Sharding.{reassemble_timeout}
use device_wiresink_go.Parser.Sharding.Completed.{sharding_frame}
use device_wiresink_go.Driver.Commands.{handle_write_commands}
use device_wiresink_go.Driver.Devices.{Metadata, add_device, update_device, remove_device}
use device_wiresink_go.Driver.Health.{health_tick}
use device_wiresink_go.Driver.Start.{stop}

pub record Service : Type 0 where
  -- `SinkRawDataCh`, oldest frame first.
  pub queue : List Bytes
  pub gateway : Gateway
  -- The loop of `StartParser` waits for room in `WriteChan`, which nothing makes.
  pub parser_blocked : Bool

module _ (codec : JsonCodec) (sdk : Metadata) (parse_default : Text → Text → Value) where
  -- One turn. Every reading of a clock, and what an array holds behind a frame, is free; a turn that
  -- panics has no state behind it, since it ends the process. A parser that waits for room in
  -- `WriteChan` has written the time stamp of the device, and takes no further frame; closing the
  -- channel under it panics it.
  pub data Step (s t : Service) : Type 0 where
    arrive :
        (message : Bytes)
        → t ≡ record s { queue = sink_msg_handler codec message s.queue }
        → Step s t
    parse :
        (now seconds : ℕ) (frame spare : Bytes) (rest : List Bytes) (after : Gateway)
        → s.parser_blocked ≡ false
        → s.queue ≡ frame ∷ rest
        → receive now seconds frame spare s.gateway ≡ done after
        → t ≡ record { queue = rest; gateway = after; parser_blocked = false }
        → Step s t
    block :
        (now seconds : ℕ) (frame spare : Bytes) (rest : List Bytes) (device : Text)
        → s.parser_blocked ≡ false
        → s.queue ≡ frame ∷ rest
        → receive now seconds frame spare s.gateway ≡ blocked
        → lookup_device_name (read_header frame).sensor s.gateway.mapping ≡ some device
        → t ≡ record {
          queue = rest;
          gateway = on_data_received now device s.gateway;
          parser_blocked = true;
        }
        → Step s t
    complete :
        (frame : Frame) (rest : List Frame) (after : Gateway)
        → s.gateway.sdus ≡ frame ∷ rest
        → sharding_frame frame (record s.gateway { sdus = rest }) ≡ done after
        → t ≡ record s { gateway = after }
        → Step s t
    time_out : (key : Text) → t ≡ record s { gateway = reassemble_timeout key s.gateway } → Step s t
    write :
        (clock : ℕ → ℕ) (device : Text) (names : List Text) (params : List ℕ)
        → t ≡ record s { gateway = (handle_write_commands clock device names params s.gateway).0 }
        → Step s t
    add :
        (device : Text)
        → t ≡ record s { gateway = (add_device sdk parse_default device s.gateway).0 }
        → Step s t
    update :
        (device : Text)
        → t ≡ record s { gateway = (update_device sdk parse_default device s.gateway).0 }
        → Step s t
    remove :
        (device : Text) → t ≡ record s { gateway = (remove_device device s.gateway).0 } → Step s t
    check :
        (now : ℕ)
        → t ≡ record s { gateway = record s.gateway { values = health_tick now s.gateway.values } }
        → Step s t
    shut :
        (after : Gateway)
        → s.parser_blocked ≡ false
        → stop s.gateway ≡ done after
        → t ≡ record s { gateway = after }
        → Step s t

  -- The states that turns lead to.
  pub data Reaches (start : Service) : Service → Type 0 where
    here : Reaches start start
    then_step : {s t : Service} → Reaches start s → Step s t → Reaches start t

  -- A turn before others.
  pub Reaches-before : {s t u : Service} → Step s t → Reaches t u → Reaches s u
  Reaches-before first here = then_step here first
  Reaches-before first (then_step r last) = then_step (Reaches-before first r) last
