-- ===== src/Parser/Response/Runs.antt =====
-- The loop of `common_para_response` ends, and what it can reach of the data.
use device_wiresink_go.Prelude.{
  ℕ, zero, suc, ◌+◌, ◌/◌, ◌%◌, ◌^◌, ◌≤◌, ◌<◌, ◌≡◌, ◌≢◌, arith, ltb, false, [], none, some, length,
  Bytes, Text, Bool-cases, inl, inr, Option-cases,
}
use device_wiresink_go.Prelude.Outcome.{done, stuck, >>=-eq-done, >>=-ne-stuck}
use device_wiresink_go.Wire.{uint16_le, uint16_be}
use device_wiresink_go.State.{Frame, Gateway}
use device_wiresink_go.Config.Mapping.{lookup_device_name}
use device_wiresink_go.Parser.Slices.{byte_at, slice, uint16_at, data_len_at}
use device_wiresink_go.Parser.Response.Loop.{
  response_store, read_value, read_param, walk_params, common_para_response,
}

data_len_at_forward :
    (order : ℕ → ℕ → ℕ) (s spare : Bytes) (flag i n at : ℕ)
    → data_len_at order s spare flag i ≡ done (n, at)
    → i ≤ at
unfolding data_len_at
data_len_at_forward order s spare zero i n at e = ground arith
data_len_at_forward order s spare (suc zero) i n at e = ground arith
data_len_at_forward order s spare (suc (suc zero)) i n at e = ground arith
data_len_at_forward order s spare (suc (suc (suc flag))) i n at e = ground arith

read_value_forward :
    (s : Bytes) (param_type n at found next : ℕ) (bytes : Bytes)
    → read_value s param_type n at ≡ done (some (found, bytes, next))
    → (at ≤ next) × (next + 2 ≤ length s)
unfolding read_value slice
read_value_forward s param_type n at found next bytes e = ground arith

read_value-ne-stuck : (s : Bytes) (param_type n at : ℕ) → read_value s param_type n at ≢ stuck
unfolding read_value slice
read_value-ne-stuck s param_type n at e = ground arith

-- A parameter that is read ends two bytes before the end of the data, at least, and two bytes
-- behind its start.
read_param_forward :
    (s : Bytes) (idx param_type next : ℕ) (bytes : Bytes)
    → read_param uint16_be s idx ≡ done (some (param_type, bytes, next))
    → (idx + 2 ≤ next) × (next + 2 ≤ length s)
unfolding read_param
read_param_forward s idx param_type next bytes e =
    elim (Bool-cases (ltb (length s) (idx + 2 + 2))) [
      | inl short ↦ cc (rw short at e)
      | inr long ↦
          let (head, h, e1) = >>=-eq-done (uint16_at uint16_le s [] idx) _ (rw long at e) in
          let (d, f, e2) = >>=-eq-done (data_len_at uint16_be s [] (head % 2 ^ 2) (idx + 2)) _ e1 in
          omega (
            arith,
            data_len_at_forward uint16_be s [] (head % 2 ^ 2) (idx + 2) d.0 d.1 f,
            read_value_forward s (head / 2 ^ 2) d.0 d.1 param_type next bytes e2,
          )
    ]

pub byte_at-ne-stuck : (s : Bytes) (i : ℕ) → byte_at s i ≢ stuck
unfolding byte_at
byte_at-ne-stuck s i e = ground arith

pub slice-ne-stuck : (s spare : Bytes) (lo hi : ℕ) → slice s spare lo hi ≢ stuck
unfolding slice
slice-ne-stuck s spare lo hi e = ground arith

pub uint16_at-ne-stuck :
    (order : ℕ → ℕ → ℕ) (s spare : Bytes) (i : ℕ) → uint16_at order s spare i ≢ stuck
unfolding uint16_at
uint16_at-ne-stuck order s spare i =
    >>=-ne-stuck _ _ (slice-ne-stuck s spare i (i + 2)) (λ a h e. cc)

pub data_len_at-ne-stuck :
    (order : ℕ → ℕ → ℕ) (s spare : Bytes) (flag i : ℕ) → data_len_at order s spare flag i ≢ stuck
unfolding data_len_at
data_len_at-ne-stuck order s spare zero i e = cc
data_len_at-ne-stuck order s spare (suc zero) i e = ground arith
data_len_at-ne-stuck order s spare (suc (suc zero)) i e = ground arith
data_len_at-ne-stuck order s spare (suc (suc (suc flag))) i e = ground arith

read_param-ne-stuck : (s : Bytes) (idx : ℕ) → read_param uint16_be s idx ≢ stuck
unfolding read_param
read_param-ne-stuck s idx = elim (Bool-cases (ltb (length s) (idx + 2 + 2))) [
  | inl short ↦ rw short (λ e. cc)
  | inr long ↦ rw long (
      >>=-ne-stuck _ _ (uint16_at-ne-stuck uint16_le s [] idx) (λ head h.
        >>=-ne-stuck _ _ (data_len_at-ne-stuck uint16_be s [] (head % 2 ^ 2) (idx + 2))
          (λ d f. read_value-ne-stuck s (head / 2 ^ 2) d.0 d.1)))
]

pub walk_params-ne-stuck :
    (store : Text → ℕ → Bytes → Gateway → Gateway) (fuel left : ℕ) (s : Bytes) (idx : ℕ)
    (frame : Frame) (g : Gateway)
    → length s < fuel + idx
    → 0 < fuel
    → walk_params store fuel left s idx frame g ≢ stuck
unfolding walk_params
walk_params-ne-stuck store fuel zero s idx frame g h p = λ e. cc
walk_params-ne-stuck store zero (suc left) s idx frame g h p = absurd (omega arith)
walk_params-ne-stuck store (suc fuel) (suc left) s idx frame g h p =
    >>=-ne-stuck _ _ (read_param-ne-stuck s idx) (elim [
      | none ↦ λ e q. cc
      | some t ↦ λ e.
          let (step, room) = read_param_forward s idx t.0 t.2 t.1 e in
          elim (Option-cases (lookup_device_name frame.sensor_id g.mapping)) [
            | inl unknown ↦ ground (arith, walk_params-ne-stuck store fuel (suc left) s t.2 frame g)
            | inr (device, known) ↦
                ground
                  (arith, walk_params-ne-stuck store fuel left s t.2 frame (store device t.0 t.1 g))
          ]
    ])

-- The loop of common_para_response ends on every response, whatever its data and its count of
-- parameters: the fuel of the model is enough.
pub common_para_response-ne-stuck :
    (s : Bytes) (frame : Frame) (g : Gateway) → common_para_response s frame g ≢ stuck
unfolding common_para_response
common_para_response-ne-stuck s frame g =
    >>=-ne-stuck _ _
      (walk_params-ne-stuck response_store (suc (length s)) frame.data_len s 0 frame
        (record g { resources = []; resources_flag = false }) (omega arith) (omega arith))
      (λ after h e. cc)
