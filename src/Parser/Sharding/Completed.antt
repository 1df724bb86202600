-- ===== src/Parser/Sharding/Completed.antt =====
-- `ShardingParser` of internal/frameparser/sharding.go: the parameters of the completed SDUs.
use device_wiresink_go.Prelude.{ℕ, suc, ◌≢◌, arith, List, [], ◌∷◌, length, Bytes, Text}
use device_wiresink_go.Prelude.Outcome.{Outcome, done, stuck, ◌>>=◌, >>=-ne-stuck}
use device_wiresink_go.State.{Frame, Gateway}
use device_wiresink_go.Parser.Params.{decode_param, store_param}
use device_wiresink_go.Parser.Response.Loop.{walk_params}
use device_wiresink_go.Parser.Response.Runs.{walk_params-ne-stuck}

-- The store of one parameter: the value table only.
unfoldable pub sharding_store : Text → ℕ → Bytes → Gateway → Gateway
sharding_store device param_type bytes g =
    let (found, stored) = store_param device (decode_param param_type bytes) [] g in stored

-- One SDU; each round moves the index by two at least, so `length` + 1 rounds are enough.
unfoldable pub sharding_frame : Frame → Gateway → Outcome Gateway
unfolding walk_params
sharding_frame frame g =
    walk_params sharding_store (suc (length frame.payload)) frame.data_len frame.payload 0 frame g

-- The loop over the channel, with the SDUs that it yields.
unfoldable pub sharding_parser : List Frame → Gateway → Outcome Gateway
unfolding sharding_frame
sharding_parser [] g = done g
sharding_parser (frame ∷ frames) g = sharding_frame frame g >>= sharding_parser frames

-- `ShardingParser` ends on every sequence of SDUs, whatever their payloads and their counts of
-- parameters: the fuel is enough.
pub sharding_parser-ne-stuck :
    (frames : List Frame) (g : Gateway) → sharding_parser frames g ≢ stuck
unfolding sharding_parser
sharding_parser-ne-stuck [] g = λ e. cc
sharding_parser-ne-stuck (frame ∷ frames) g =
    >>=-ne-stuck (sharding_frame frame g) (sharding_parser frames)
      (walk_params-ne-stuck sharding_store (suc (length frame.payload)) frame.data_len frame.payload
        0 frame g (omega arith) (omega arith))
      (λ after h. sharding_parser-ne-stuck frames after)
