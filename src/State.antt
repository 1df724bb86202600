-- ===== src/State.antt =====
-- The mutable state of the service: the package variables of internal/config and
-- internal/frameparser, and what went out through its channels and its MQTT client.
use device_wiresink_go.Prelude.{ℕ, Bool, List, Bytes, Text, Assoc}
use device_wiresink_go.Value.{Value, NodeTopology}
use device_wiresink_go.Config.Values.{Values}
use device_wiresink_go.Config.Mapping.{Mapping}

-- `config.Frame` of internal/config/param_table_parser_response.go.
pub record Frame : Type 0 where
  pub sensor_id : Text
  pub data_len : ℕ
  pub frag_ind : ℕ
  pub packet_type : ℕ
  pub payload : Bytes
  pub check : ℕ

-- `SDUCache` of internal/frameparser/sharding.go. The timer that runs for a cache is the PSEQ that
-- its callback reports.
pub record SduCache : Type 0 where
  pub sseq : ℕ
  pub expected : ℕ
  pub final_pseq : ℕ
  pub buffer : Bytes
  pub out_of_order : List (ℕ × Bytes)
  pub timer_pseq : ℕ

-- A call of the reporting callback.
pub record Report : Type 0 where
  pub device : Text
  pub source : Text
  pub values : Assoc Value

-- A message that `PublishSinkCommand` hands to the MQTT client, without its clock readings.
pub record Publication : Type 0 where
  pub topic : Text
  pub eid : Text
  pub data_len : ℕ
  pub hex : Text

pub record Gateway : Type 0 where
  -- `ValuesMap`, `SensorIDToDeviceName`, `TopoList`.
  pub values : Values
  pub mapping : Mapping
  pub topo_list : List NodeTopology
  -- `Resources1` and `ResourcesFlag`.
  pub resources : Assoc Value
  pub resources_flag : Bool
  -- `sduCaches`, and what was sent to `SDUCh`.
  pub caches : Assoc SduCache
  pub sdus : List Frame
  -- What was sent to `WriteChan`, oldest first, and whether `Stop` has closed it.
  pub at_commands : List Text
  pub write_chan_closed : Bool
  -- What was published, and what was reported, oldest first.
  pub published : List Publication
  pub reports : List Report
