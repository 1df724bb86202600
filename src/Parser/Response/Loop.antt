-- ===== src/Parser/Response/Loop.antt =====
-- `common_para_response` of internal/config/param_table_parser_response.go, and the loop that it
-- shares with `ShardingParser` of internal/frameparser/sharding.go.
use device_wiresink_go.Prelude.{
  ℕ, zero, suc, ◌+◌, ◌/◌, ◌%◌, ◌^◌, ltb, true, false, [], Option, none, some, if◌then◌else◌, length,
  Bytes, Text,
}
use device_wiresink_go.Prelude.Outcome.{Outcome, done, stuck, ◌>>=◌}
use device_wiresink_go.Wire.{uint16_le, uint16_be}
use device_wiresink_go.Config.Mapping.{lookup_device_name}
use device_wiresink_go.State.{Frame, Gateway}
use device_wiresink_go.Parser.Slices.{slice, uint16_at, data_len_at}
use device_wiresink_go.Parser.Params.{decode_param, store_param}

-- The bytes of a value, with the index behind them; `none` where it ends past the end. The bounds
-- of this loop leave the last two bytes of the data out.
unfoldable pub read_value : Bytes → ℕ → ℕ → ℕ → Outcome (Option (ℕ × Bytes × ℕ))
read_value s param_type n at =
    if ltb (length s) (at + n + 2)
    then done none
    else slice s [] at (at + n) >>= λ bytes. done (some (param_type, bytes, at + n))

-- One parameter: its type, its bytes and the index behind it, or `none` where the data ends first.
unfoldable pub read_param : (ℕ → ℕ → ℕ) → Bytes → ℕ → Outcome (Option (ℕ × Bytes × ℕ))
read_param order s idx =
    if ltb (length s) (idx + 2 + 2)
    then done none
    else uint16_at uint16_le s [] idx >>= λ head16.
        data_len_at order s [] (head16 % 2 ^ 2) (idx + 2) >>= λ (n, at).
        read_value s (head16 / 2 ^ 2) n at

-- The stores of one parameter: the value table and `Resources1`.
unfoldable pub response_store : Text → ℕ → Bytes → Gateway → Gateway
response_store device param_type bytes g =
    let (found, stored) = store_param device (decode_param param_type bytes) g.resources g in
    record stored { resources = found }

-- The loop, with what it does with a parameter of a device. A round that finds no device for the
-- sensor goes on with the next parameter and does not count.
unfoldable pub walk_params :
    (Text → ℕ → Bytes → Gateway → Gateway) → ℕ → ℕ → Bytes → ℕ → Frame → Gateway → Outcome Gateway
walk_params store fuel zero s idx frame g = done g
walk_params store zero (suc left) s idx frame g = stuck
walk_params store (suc fuel) (suc left) s idx frame g = read_param uint16_be s idx >>= λ param.
    elim param [
      | none ↦ done g
      | some (param_type, bytes, next) ↦ elim (lookup_device_name frame.sensor_id g.mapping) [
        | none ↦ walk_params store fuel (suc left) s next frame g
        | some device ↦ walk_params store fuel left s next frame (store device param_type bytes g)
      ]
    ]

-- Each round moves the index by two at least, so `length s + 1` rounds are enough.
unfoldable pub common_para_response : Bytes → Frame → Gateway → Outcome Gateway
unfolding walk_params
common_para_response s frame g =
    walk_params response_store (suc (length s)) frame.data_len s 0 frame
      (record g { resources = []; resources_flag = false })
    >>= λ after. done (record after { resources_flag = true })
