-- ===== src/Driver/Reporting/Reported.antt =====
-- Which values `AsyncReporting` of internal/driver/cmdupload.go reports.
use device_wiresink_go.Prelude.{
  ℕ, ◌≡◌, ◌≢◌, refl, ap, ◌∙◌, sym, arith, List, [], ◌∷◌, ◌++◌, append-nil, append_assoc, none, All,
  Bytes, Text, Assoc, codes,
}
use device_wiresink_go.Prelude.Outcome.{Result, ok}
use Prim.Native.String.{String}
use device_wiresink_go.Value.{Value, int32, int64, float32, float64, string}
use device_wiresink_go.State.{Report}
use device_wiresink_go.Config.Params.Row.{
  ParseFn, parse_float32, parse_uint8, parse_uint16, parse_uint32, parse_int16, parse_float32_array,
  parse_uint16_array, parse_topo,
}
use device_wiresink_go.Config.Decode.{parse_value}
use device_wiresink_go.Driver.Readings.{CommandValue}
use device_wiresink_go.Driver.Reporting.{
  AsyncValues, report_type, report_one, report_loop, async_reporting,
}

-- A value that one of the decoders of the parameter types made, other than the one for float32.
abbrev pub FromOtherDecoder : Text × Value → Type 0
FromOtherDecoder (name, v) =
    (p : ParseFn) × (bytes : Bytes) × (p ≢ parse_float32) × (parse_value p bytes ≡ ok v)

report_type-parse_value :
    (p : ParseFn) (bytes : Bytes) (v : Value)
    → p ≢ parse_float32
    → parse_value p bytes ≡ ok v
    → report_type v ≡ none
unfolding report_type parse_value
report_type-parse_value parse_float32 bytes v other e = absurd (other refl)
report_type-parse_value parse_uint8 (a ∷ []) v other e = ground arith
report_type-parse_value parse_uint8 bytes v other e = cc
report_type-parse_value parse_uint16 (a ∷ b ∷ []) v other e = ground arith
report_type-parse_value parse_uint16 bytes v other e = cc
report_type-parse_value parse_uint32 (a ∷ b ∷ c ∷ d ∷ []) v other e = ground arith
report_type-parse_value parse_uint32 bytes v other e = cc
report_type-parse_value parse_int16 (a ∷ b ∷ []) v other e = ground arith
report_type-parse_value parse_int16 bytes v other e = cc
report_type-parse_value parse_float32_array bytes v other e = ground arith
report_type-parse_value parse_uint16_array bytes v other e = ground arith
report_type-parse_value parse_topo bytes v other e = ground arith

abbrev pub made : Text → String → Value → CommandValue
made name type v = record { resource = name; type = codes type; value = v }

-- What the driver needs of `NewCommandValue`: it keeps what it is given where the value has the type.
abbrev pub Accepts : (Text → Text → Value → Result CommandValue) → Type 0
Accepts new_command_value =
    ((name : Text) (n : ℕ)
      → (new_command_value name (codes "Int32") (int32 n) ≡ ok (made name "Int32" (int32 n)))
        × (new_command_value name (codes "Int64") (int64 n) ≡ ok (made name "Int64" (int64 n)))
        × (new_command_value name (codes "Float32") (float32 n)
            ≡ ok (made name "Float32" (float32 n)))
        × (new_command_value name (codes "Float64") (float64 n)
            ≡ ok (made name "Float64" (float64 n))))
    × ((name t : Text)
        → new_command_value name (codes "String") (string t) ≡ ok (made name "String" (string t)))

-- The values of a report that have one of the types int32, int64, float32, float64 and string.
unfoldable pub reportable : Assoc Value → List CommandValue
reportable [] = []
reportable ((name, int32 n) ∷ rest) = made name "Int32" (int32 n) ∷ reportable rest
reportable ((name, int64 n) ∷ rest) = made name "Int64" (int64 n) ∷ reportable rest
reportable ((name, float32 n) ∷ rest) = made name "Float32" (float32 n) ∷ reportable rest
reportable ((name, float64 n) ∷ rest) = made name "Float64" (float64 n) ∷ reportable rest
reportable ((name, string t) ∷ rest) = made name "String" (string t) ∷ reportable rest
reportable ((name, v) ∷ rest) = reportable rest

-- The message that a report sends, where it has values that can be reported.
abbrev pub message : Report → List CommandValue → List AsyncValues
message report [] = []
message report (cv ∷ cvs) =
    record { device = report.device; source = report.source; values = cv ∷ cvs } ∷ []

module _ (new_command_value : Text → Text → Value → Result CommandValue) where
  report_one-reportable :
      (name : Text) (v : Value) (rest : Assoc Value)
      → Accepts new_command_value
      → report_one new_command_value name v ++ reportable rest ≡ reportable ((name, v) ∷ rest)
  unfolding report_one report_type reportable
  report_one-reportable name (int32 n) rest accepts = rw ((accepts.0 name n).0) refl
  report_one-reportable name (int64 n) rest accepts = rw ((accepts.0 name n).1) refl
  report_one-reportable name (float32 n) rest accepts = rw ((accepts.0 name n).2) refl
  report_one-reportable name (float64 n) rest accepts = rw ((accepts.0 name n).3) refl
  report_one-reportable name (string t) rest accepts = rw (accepts.1 name t) refl
  report_one-reportable name v rest accepts = refl

  report_loop-reportable :
      (values : Assoc Value) (cvs : List CommandValue)
      → Accepts new_command_value
      → report_loop new_command_value values cvs ≡ cvs ++ reportable values
  unfolding report_loop
  report_loop-reportable [] cvs accepts = unfold reportable in sym (append-nil cvs)
  report_loop-reportable ((name, v) ∷ rest) cvs accepts =
      report_loop-reportable rest (cvs ++ report_one new_command_value name v) accepts
      ∙ append_assoc cvs (report_one new_command_value name v) (reportable rest)
      ∙ ap (λ (l : List CommandValue). cvs ++ l) (report_one-reportable name v rest accepts)

  async_reporting-loop :
      (report : Report) (channel : List AsyncValues) (cvs : List CommandValue)
      → report_loop new_command_value report.values [] ≡ cvs
      → async_reporting new_command_value report channel ≡ channel ++ message report cvs
  unfolding async_reporting
  async_reporting-loop report channel [] e = rw e (sym (append-nil channel))
  async_reporting-loop report channel (cv ∷ cvs) e = rw e refl

  -- With an SDK that takes values of the types int32, int64, float32, float64 and string under the
  -- names of these types, a report sends one message with its values of these types, each under the
  -- name of its type, in the order of the map, where there are any, and nothing otherwise.
  pub async_reporting-reportable :
      (report : Report) (channel : List AsyncValues)
      → Accepts new_command_value
      → async_reporting new_command_value report channel
        ≡ channel ++ message report (reportable report.values)
  async_reporting-reportable report channel accepts =
      async_reporting-loop report channel (reportable report.values)
        (report_loop-reportable report.values [] accepts)

  report_one-dropped :
      (name : Text) (v : Value) → report_type v ≡ none → report_one new_command_value name v ≡ []
  unfolding report_one
  report_one-dropped name v h = rw (report_one, h) refl

  report_loop-dropped :
      (values : Assoc Value) (cvs : List CommandValue)
      → All FromOtherDecoder values
      → report_loop new_command_value values cvs ≡ cvs
  unfolding report_loop report_one
  report_loop-dropped [] cvs h = refl
  report_loop-dropped ((name, v) ∷ rest) cvs ((p, bytes, other, e), h) =
      ap (λ (l : List CommandValue). report_loop new_command_value rest (cvs ++ l))
        (report_one-dropped name v (report_type-parse_value p bytes v other e))
      ∙ report_loop-dropped rest (cvs ++ []) h
      ∙ append-nil cvs

  -- A report of values that decoders of parameter types other than the one for float32 made is
  -- dropped: numbers of 8, 16 and 32 bits, arrays and topologies are never reported by themselves.
  pub async_reporting-dropped :
      (report : Report) (channel : List AsyncValues)
      → All FromOtherDecoder report.values
      → async_reporting new_command_value report channel ≡ channel
  async_reporting-dropped report channel h =
      async_reporting-loop report channel [] (report_loop-dropped report.values [] h)
      ∙ append-nil channel
