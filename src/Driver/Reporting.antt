-- ===== src/Driver/Reporting.antt =====
-- `AsyncReporting` of internal/driver/cmdupload.go.
pub mod Reported
use device_wiresink_go.Prelude.{ℕ, List, [], ◌∷◌, ◌++◌, Option, none, some, Text, Assoc, codes}
use device_wiresink_go.Prelude.Outcome.{Result, ok, err}
use device_wiresink_go.Value.{Value, int32, int64, float32, float64, string}
use device_wiresink_go.State.{Report}
use device_wiresink_go.Driver.Readings.{CommandValue}

-- `dsModels.AsyncValues`.
pub record AsyncValues : Type 0 where
  pub device : Text
  pub source : Text
  pub values : List CommandValue

-- The type switch; a value of another type is passed over.
unfoldable pub report_type : Value → Option Text
report_type (int32 v) = some (codes "Int32")
report_type (int64 v) = some (codes "Int64")
report_type (float32 v) = some (codes "Float32")
report_type (float64 v) = some (codes "Float64")
report_type (string v) = some (codes "String")
report_type v = none

module _ (new_command_value : Text → Text → Value → Result CommandValue) where
  -- One value; an error of the SDK passes it over as well.
  unfoldable pub report_one : Text → Value → List CommandValue
  unfolding report_type
  report_one name val = elim (report_type val) [
    | none ↦ []
    | some type ↦ elim (new_command_value name type val) [ err e ↦ [] | ok cv ↦ cv ∷ [] ]
  ]

  -- The loop over the map, in the order in which `range` meets it.
  unfoldable pub report_loop : Assoc Value → List CommandValue → List CommandValue
  unfolding report_one
  report_loop [] cvs = cvs
  report_loop ((name, val) ∷ rest) cvs = report_loop rest (cvs ++ report_one name val)

  abbrev push : Report → List CommandValue → List AsyncValues → List AsyncValues
  push report [] channel = channel
  push report (cv ∷ cvs) channel =
      channel ++ record { device = report.device; source = report.source; values = cv ∷ cvs } ∷ []

  -- `AsyncReporting`, with what was sent to the channel of the SDK, oldest first. Nothing is sent for
  -- a map without values, nor where none of its values can be reported.
  unfoldable pub async_reporting : Report → List AsyncValues → List AsyncValues
  unfolding report_loop
  async_reporting report channel = push report (report_loop report.values []) channel
