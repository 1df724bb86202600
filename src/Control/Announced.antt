-- ===== src/Control/Announced.antt =====
-- What `BuildGeneralParamFrame` of internal/frameparser/usual_param_ctl.go announces in its head.
use device_wiresink_go.Prelude.{
  ℕ, ◌*◌, ◌/◌, ◌%◌, ◌^◌, ◌≤◌, ◌<◌, ◌==◌, ◌||◌, ltb, ◌≡◌, refl, sym, ap, ◌∙◌, inl, inr, arith, List,
  [], ◌∷◌, ◌++◌, append_assoc, length, get_or, get_or-append_at, Bytes, Text, Assoc, bit_and,
  bit_or, Bool-cases,
}
use device_wiresink_go.Prelude.Bits.{agree_below, agree_below→eq}
use device_wiresink_go.Prelude.Outcome.{Result, ok, err}
use device_wiresink_go.Wire.{with_crc}
use device_wiresink_go.Config.ParamTable.{Table}
use device_wiresink_go.Control.General.{
  ◌>>=◌, parameter_list, general_frame, build_general_param_frame,
}
use device_wiresink_go.Parser.Receive.Fields.{read_header}

data_count-with_crc :
    (sensor : Bytes) (head : ℕ) (rest : Bytes)
    → length sensor ≡ 6
    → (read_header (with_crc (sensor ++ head ∷ rest))).data_count ≡ head / 2 ^ 4
unfolding read_header with_crc
data_count-with_crc sensor head rest six =
    ap (λ (t : Bytes). get_or t 6 0 / 2 ^ 4) (append_assoc sensor (head ∷ rest) _)
    ∙ ap (λ (b : ℕ). b / 2 ^ 4) (get_or-append_at sensor _ 6 0 0 (omega arith))

abbrev announced : ℕ → ℕ
announced m = bit_or (bit_and (bit_and m 0x0F) 0x0F * 2 ^ 4) (bit_and 0x04 0x07) / 2 ^ 4

announced-mod : (m : ℕ) → m < 17 → announced m ≡ m % 2 ^ 4
unfolding agree_below
announced-mod m h = agree_below→eq announced (λ i. i % 2 ^ 4) 17 m refl h

framed :
    (r : Result Bytes) (sensor : Bytes) (m : ℕ) (frame : Bytes)
    → length sensor ≡ 6
    → (r >>= λ list. ok (general_frame sensor 1 (bit_and m 0x0F) list)) ≡ ok frame
    → (read_header frame).data_count ≡ announced m
unfolding general_frame
framed (err e) sensor m frame six built = cc
framed (ok list) sensor m frame six built =
    ap (λ (f : Bytes). (read_header f).data_count) (sym (ok-injective built))
    ∙ data_count-with_crc sensor _ _ six
  where
    ok-injective : {f : Bytes} {g : Bytes} → ok f ≡ ok g → f ≡ g
    ok-injective h = cc

-- For a sensor ID of six bytes a frame that sets general parameters is only built for one to
-- sixteen of them, and its head announces their number in four bits: the sixteen that are allowed
-- are announced as none.
pub build_general_param_frame-data_count :
    (sensor : Bytes) (order : List Text) (params : Assoc Bytes) (table : Table) (frame : Bytes)
    → length sensor ≡ 6
    → build_general_param_frame sensor 1 order params table ≡ ok frame
    → (0 < length order)
      × (length order ≤ 16)
      × ((read_header frame).data_count ≡ length order % 2 ^ 4)
unfolding build_general_param_frame
build_general_param_frame-data_count sensor order params table frame six e =
    let m = length order in
    elim (Bool-cases (m == 0 || ltb 16 m)) [
      | inl refused ↦ absurd (ground arith)
      | inr counted ↦
          let built : (parameter_list order params table [] >>= λ list.
          ok (general_frame sensor 1 (bit_and m 0x0F) list))
              ≡ ok frame =
            ground arith in
          let small : m < 17 = ground arith in
          (
            ground arith,
            ground arith,
            framed (parameter_list order params table []) sensor m frame six built
                ∙ announced-mod m small,
          )
    ]
