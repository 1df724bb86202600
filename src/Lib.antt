-- ===== src/Lib.antt =====
-- The wired sink device service: a gateway that talks to a sink of wireless sensors.
--
-- The service takes frames of bytes from an MQTT topic, checks and decodes them, keeps the decoded
-- values of each device in a table, answers the sensors, and reports what it found. Commands of the
-- EdgeX device SDK read that table, or become control frames that are published for the sink.
--
-- Which file models which part:
--   Crc          internal/frameparser/crc.go: `CRC16` and its tables. Bitwise is the register that
--                Table and Detect compare it with.
--   Value        the Go values that travel as `any`; internal/config/routing_information.go.
--   Config       internal/config: Values (the value table, config.go), Defaults (the loading of the
--                device profiles, config.go), Mapping (the map from sensors to devices,
--                idToDevice.go), ParamTable (param_table.go), Params and Decode (the table of
--                parameter types and their decoders, param_table_parser_data.go), Topo (`parseTopo`
--                of the same file), Tool (tool.go: its own copy of `CRC16`, and the AT commands).
--   Hex, Wire    encoding/hex, strconv.Itoa and encoding/binary, as far as the code uses them, and
--                the head byte, control byte and checksum that all builders write.
--   Strconv      strconv.ParseUint, ParseInt and ParseBool. The record `Runtime` holds what is not
--                computed here: fmt.Sprint, and all operations on floating-point numbers.
--   Mqtt         internal/mqttclient/mqttclient.go and internal/relay/egress.go: the texts that are
--                published and taken apart; Ingress is `sinkMsgHandler` with the queue behind it, and
--                Connection the calls of the MQTT library.
--   Control      the builders of control frames of internal/frameparser (*_ctl.go), and
--                `SendDataStatus` of parser.go.
--   Parser       internal/frameparser: Receive (the loop body of `StartParser`, parser.go), Sharding
--                (`ProcessFrame`, `finalize`, `sendAck`, `ShardingParser`, sharding.go), Response
--                (`handleFrameCtl` with the handlers of
--                internal/config/param_table_parser_response.go), Slices and Params (what the loops
--                over parameters share).
--   Driver       internal/driver: Commands (`HandleWriteCommands` and the handlers of command.go),
--                Readings (`HandleReadCommands`), Coerce (`coerceTo` and its helpers), Devices
--                (`AddDevice`, `UpdateDevice`, `RemoveDevice`), Reporting (cmdupload.go), Health
--                (status_check.go), Listener (listener.go), Start (`Initialize`, `Start` and `Stop`).
--   Service      the turns of the goroutines, callbacks and timers that `Start` of
--                internal/driver/wiresinkdriver.go sets going, and `Stop`, as a step relation.
--   State        the record `Gateway` of all package variables, and of what was sent: publications,
--                AT commands, completed SDUs and reports, each oldest first.
--   Prelude      shared names, tests, lists, association lists, bits, and how code ends.
--   Examples     runs and instances.
--
-- A handler of the parser is a function from the state to an `Outcome`: it is done with a new state,
-- or it panicked, which in a goroutine ends the process, or it waits for ever to send to a channel
-- that is full and that nothing reads, or the model ran out of fuel. A callback of the driver returns
-- its state together with the error that it ends with. A Go slice is its bytes together with `spare`,
-- the bytes of its array behind its length, since a slice expression may reach them. The code of one
-- goroutine runs as one step; `cacheMu` and `Mu` make the steps on the caches and on the value table
-- atomic.
--
-- Fuel: `parseTopo` runs on the number of its bytes, since a round takes at least one, and would end
-- with the error `out_of_fuel`; the loops of `common_para_response` and `ShardingParser` run on the
-- number of their bytes and one more, since a round moves the index by two at least; the merging of
-- early fragments runs on their number and one more, since a round removes one; these would end
-- stuck. Nothing else has fuel.
--
-- Taken as given: texts are lists of ASCII codes; maps are association lists in the order in which
-- `range` meets them; the clock's readings are arguments; the queue of raw frames and `WriteChan` have
-- the bounds of the code, other channels have room; the broker accepts what is published; floats are
-- bit patterns, and an int has 64 bits; a reporting callback is set. Logging leaves no trace.
-- Parameters stand for reading files and YAML (`Files`), for encoding/json (`Json`, `JsonCodec`), for
-- the MQTT library (`Library`), and for the SDK (`Metadata`, `new_command_value`, and the values of
-- write commands as `Int8Value` gives them). `Registry` of Config.Defaults is the part of the state
-- that the loading of the profiles writes.
--
-- `Start` maps the sensors after it has subscribed, and a frame may be handled before that, with the
-- map of one sensor with which the process begins. So `Start` is two definitions, `start` up to the
-- subscription and `map_sensors`, with turns of the service between them and behind them.
--
-- A parser that waits for room in `WriteChan` stays so: the turn `block` takes its frame from the
-- queue, keeps the time stamp that it wrote, and leaves a state in which the parser has no turn, while
-- all others go on. `ShardingParser` has the turn `complete`.
--
-- Not modelled: `ValidateDevice` and `Discover`, which do nothing; the fields of the driver that
-- `Initialize` sets, which are handles of the SDK; cmd/main.go.
pub mod Prelude
pub mod Crc
pub mod Wire
pub mod Value
pub mod Config
pub mod Hex
pub mod Strconv
pub mod State
pub mod Mqtt
pub mod Control
pub mod Parser
pub mod Driver
pub mod Service
mod Examples
