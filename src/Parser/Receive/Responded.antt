-- ===== src/Parser/Receive/Responded.antt =====
-- The loop over parameters of internal/config/param_table_parser_response.go on entries that
-- `EncodeParamEntry` wrote. It stops in front of the last one: its bounds leave two bytes out for a
-- checksum that the parser has cut off before.
mod Reading
use device_wiresink_go.Prelude.{
  ℕ, zero, suc, ◌+◌, ◌*◌, ◌%◌, ◌/◌, ◌^◌, ◌<◌, ◌≤◌, ltb, ◌≡◌, ◌≢◌, refl, sym, ap, ◌∙◌, arith, List,
  [], ◌∷◌, ◌++◌, Option, none, some, true, false, Bool-cases, inl, inr, append_assoc, append-nil,
  length, length-append, All, Bytes, Text,
}
use device_wiresink_go.Prelude.Outcome.{Outcome, done, ◌>>=◌}
use device_wiresink_go.Wire.{uint16_le, uint16_be, put_uint16_le}
use device_wiresink_go.Value.{Value}
use device_wiresink_go.State.{Frame, Gateway}
use device_wiresink_go.Config.Mapping.{lookup_device_name}
use device_wiresink_go.Control.{encode_param_entry}
use device_wiresink_go.Control.Entries.{Entry, WellFormed, encoded, encode_param_entry_lem}
use device_wiresink_go.Parser.Slices.{data_len_at}
use device_wiresink_go.Parser.Slices.Reads.{len_bytes, FitsFlag}
use device_wiresink_go.Parser.Params.{decode_param, store_param, store_value}
use device_wiresink_go.Parser.Response.Loop.{
  read_value, read_param, response_store, walk_params, common_para_response,
}
use device_wiresink_go.Parser.Receive.Entries.{
  length-lead, length-frame, read_head, read_size, read_contents, FitsFlag-lt,
}
use Reading.{read_param-entry, read_param-last}

-- The stores of entries, in their order.
unfoldable pub response_all : Text → List Entry → Gateway → Gateway
response_all device [] g = g
response_all device (e ∷ es) g =
    response_all device es (response_store device e.param_type e.contents g)

response_store-mapping :
    (device : Text) (t : ℕ) (bytes : Bytes) (g : Gateway)
    → (response_store device t bytes g).mapping ≡ g.mapping
unfolding response_store
response_store-mapping device t bytes g = by_value (decode_param t bytes)
  where
    by_value :
        (o : Option (Text × Value)) → (store_param device o g.resources g).1.mapping ≡ g.mapping
    by_value none = unfold store_param in refl
    by_value (some (name, value)) = unfold store_param store_value in refl

-- An entry whose length does not take two bytes: for those this loop reads the other byte order.
abbrev pub OneOrder : Entry → Type 0
OneOrder e = WellFormed e × (e.len_flag ≢ 2)

abbrev pub entry_of : Entry → Bytes
entry_of e = encode_param_entry e.param_type e.len_flag e.contents

-- The entry in its pieces.
abbrev pieces : Entry → Bytes
pieces e =
    put_uint16_le (e.param_type * 2 ^ 2 + e.len_flag) ++ len_bytes e.len_flag (length e.contents)

length-entry_of : (e : Entry) → OneOrder e → 2 ≤ length (entry_of e)
unfolding put_uint16_le
length-entry_of e ((small, fits, bytes), other) =
    rw (encode_param_entry_lem e.param_type e.len_flag e.contents small fits) (omega arith)

-- Two rounds of the loop: one that stops, and one that goes on.
module _ (fuel left : ℕ) (s : Bytes) (idx : ℕ) (frame : Frame) (device : Text) (g : Gateway) where
  walk_params-stops :
      read_param uint16_be s idx ≡ done none
      → walk_params response_store (suc fuel) (suc left) s idx frame g ≡ done g
  unfolding walk_params
  walk_params-stops e = rw e refl

  walk_params-goes :
      (t next : ℕ) (bytes : Bytes)
      → read_param uint16_be s idx ≡ done (some (t, bytes, next))
      → lookup_device_name frame.sensor_id g.mapping ≡ some device
      → walk_params response_store (suc fuel) (suc left) s idx frame g
        ≡ walk_params response_store fuel left s next frame (response_store device t bytes g)
  unfolding walk_params
  walk_params-goes t next bytes e known =
      rw e (by_device (lookup_device_name frame.sensor_id g.mapping) known)
    where
      by_device :
          (o : Option Text)
          → o ≡ some device
          → elim o as (λ p. Outcome Gateway) [
            | none ↦ walk_params response_store fuel (suc left) s next frame g
            | some d ↦
                walk_params response_store fuel left s next frame (response_store d t bytes g)
          ]
            ≡ walk_params response_store fuel left s next frame (response_store device t bytes g)
      by_device o same = rw same refl

walk_params-encoded :
    (es : List Entry) (last : Entry) (fuel : ℕ) (pre : Bytes) (frame : Frame) (device : Text)
    (g : Gateway)
    → All OneOrder es
    → OneOrder last
    → length es < fuel
    → lookup_device_name frame.sensor_id g.mapping ≡ some device
    → walk_params response_store fuel
        (suc (length es))
        (pre ++ (encoded es ++ entry_of last))
        (length pre)
        frame
        g
      ≡ done (response_all device es g)
unfolding response_all encoded
walk_params-encoded [] last (suc fuel) pre frame device g h ((small, fits, bytes), other) room
      known =
    let t : ℕ = last.param_type in
    let flag : ℕ = last.len_flag in
    let regroup : pre ++ entry_of last ≡ ((pre ++ pieces last) ++ last.contents) ++ [] =
      rw (encode_param_entry_lem t flag last.contents small fits)
        (simp (append_assoc, append-nil)) in
    walk_params-stops fuel 0 (pre ++ entry_of last) (length pre) frame device g (
      ap (λ (s : Bytes). read_param uint16_be s (length pre)) regroup
      ∙ read_param-last t flag last.contents pre [] small fits (FitsFlag-lt flag _ fits) other refl)
walk_params-encoded (e ∷ es) last (suc fuel) pre frame device g (((small, fits, bytes), other), h) k
      room known =
    let t : ℕ = e.param_type in
    let flag : ℕ = e.len_flag in
    let front : Bytes = (pre ++ pieces e) ++ e.contents in
    let more : Bytes = encoded es ++ entry_of last in
    let regroup : pre ++ ((entry_of e ++ encoded es) ++ entry_of last) ≡ front ++ more =
      rw (encode_param_entry_lem t flag e.contents small fits) (simp append_assoc) in
    let roomy : 2 ≤ length more =
      omega (arith, length-append (encoded es) (entry_of last), length-entry_of last k) in
    let after : Gateway = response_store device t e.contents g in
    ap
      (λ (s : Bytes).
        walk_params response_store (suc fuel) (suc (suc (length es))) s (length pre) frame g)
      regroup
    ∙ walk_params-goes fuel (suc (length es)) (front ++ more) (length pre) frame device g t
        (length front) e.contents
        (read_param-entry t flag e.contents pre more small fits (FitsFlag-lt flag _ fits) other
          roomy)
        known
    ∙ walk_params-encoded es last fuel front frame device after h k (omega arith) (
        ap (lookup_device_name frame.sensor_id) (response_store-mapping device t e.contents g)
        ∙ known)
walk_params-encoded [] last zero pre frame device g h k room known = absurd (omega arith)
walk_params-encoded (e ∷ es) last zero pre frame device g h k room known = absurd (omega arith)

length-encoded : (es : List Entry) → All OneOrder es → length es ≤ length (encoded es)
unfolding encoded
length-encoded [] h = omega arith
length-encoded (e ∷ es) (k, h) =
    omega (arith, length-append (entry_of e) (encoded es), length-entry_of e k, length-encoded es h)

-- A response to a query for parameters: all but its last one are stored.
pub common_para_response-encoded :
    (es : List Entry) (last : Entry) (frame : Frame) (device : Text) (g : Gateway)
    → All OneOrder es
    → OneOrder last
    → frame.data_len ≡ suc (length es)
    → lookup_device_name frame.sensor_id g.mapping ≡ some device
    → common_para_response (encoded es ++ entry_of last) frame g
      ≡ done
          (record (response_all device es (record g { resources = []; resources_flag = false })) {
            resources_flag = true;
          })
unfolding common_para_response
common_para_response-encoded es last frame device g h k count known =
    let fresh : Gateway = record g { resources = []; resources_flag = false } in
    let s : Bytes = encoded es ++ entry_of last in
    let many : length es < suc (length s) =
      omega (arith, length-append (encoded es) (entry_of last), length-encoded es h) in
    ap (λ (o : Outcome Gateway). o >>= λ after. done (record after { resources_flag = true }))
      (ap (λ (n : ℕ). walk_params response_store (suc (length s)) n s 0 frame fresh) count
        ∙ walk_params-encoded es last (suc (length s)) [] frame device fresh h k many known)
