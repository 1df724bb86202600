-- ===== src/Service/Received.antt =====
-- What a frame that the parser handles leaves alone: a turn of `StartParser` of
-- internal/frameparser/parser.go.
use device_wiresink_go.Prelude.{
  ap, some, none, codes, text_eq, ℕ, ◌≤◌, ◌==◌, ltb, ◌≡◌, inl, inr, refl, sym, ◌∙◌, subst, arith,
  Bool, true, false, [], length, if◌then◌else◌, Option-cases, Bytes, Text, All,
}
use device_wiresink_go.Prelude.Outcome.{Outcome, done, >>=-eq-done}
use device_wiresink_go.State.{Frame, Gateway}
use device_wiresink_go.Crc.{crc16}
use device_wiresink_go.Wire.{uint16_be}
use device_wiresink_go.Config.Mapping.{lookup_device_name}
use device_wiresink_go.Control.{send_data_status}
use device_wiresink_go.Parser.Receive.{
  on_data_received, reject, accept, receive_params, receive_known, receive,
}
use device_wiresink_go.Parser.Receive.Fields.{Header, read_header}
use device_wiresink_go.Parser.Receive.Reject.{send_data_status_keeps, reject_keeps}
use device_wiresink_go.Parser.Params.{store_value}
use device_wiresink_go.Parser.Slices.{slice, uint16_at}
use device_wiresink_go.Parser.Sharding.{process_frame}
use device_wiresink_go.Parser.Sharding.Caches.{Open, Unfinished}
use device_wiresink_go.Parser.Sharding.Stalled.{Keeps, process_frame_stalls}
use device_wiresink_go.Config.Tool.Queue.{Fills, Fills-trans, same-Fills}
use device_wiresink_go.Service.Handled.{stored-Alike, receive_control-Ends, receive_params-Ends}
use device_wiresink_go.Config.Values.{get_device_value}
use device_wiresink_go.Value.{int64}
use device_wiresink_go.Service.Untouched.{
  Resources, of_device, Leaves, published-Alike, done-injective, Alike, Alike-refl, Ends, done-Ends,
}

-- No cache has noted a last fragment, no SDU was completed, the map of sensors is the same,
-- `WriteChan` may have become fuller, and all but some resources read as before.
abbrev pub Kept : Resources → Gateway → Gateway → Type 0
Kept may g after =
    Unfinished after
    × (after.sdus ≡ g.sdus)
    × (after.mapping ≡ g.mapping)
    × Fills g after
    × Leaves may g after

-- Where it runs to the end, the end is kept.
abbrev pub EndsKept : Resources → Gateway → Outcome Gateway → Type 0
EndsKept may g o = (after : Gateway) → o ≡ done after → Kept may g after

pub Alike-Kept :
    (may : Resources) (g after : Gateway) → Unfinished g → Alike may g after → Kept may g after
Alike-Kept may g after h (caches, sdus, mapping, fills, leaves) =
    (subst (All Open) (sym caches) h, sdus, mapping, fills, leaves)

pub Keeps-Kept : (may : Resources) (g after : Gateway) → Keeps g after → Kept may g after
Keeps-Kept may g after (still, sdus, mapping, commands, closed, values) = (
  still,
  sdus,
  mapping,
  same-Fills g after commands closed,
  λ d r _. ap (get_device_value d r) values,
)

Kept-trans : (may : Resources) (g h k : Gateway) → Kept may g h → Kept may h k → Kept may g k
Kept-trans may g h k (a, b, c, p, u) (d, e, f, q, v) =
    (d, e ∙ b, f ∙ c, Fills-trans g h k p q, λ x r off. v x r off ∙ u x r off)

uint16_at-short :
    (order : ℕ → ℕ → ℕ) (s : Bytes) (v : ℕ) → uint16_at order s [] 0 ≡ done v → 2 ≤ length s
unfolding uint16_at slice
uint16_at-short order s v e = ground arith

process_frame-EndsKept :
    (may : Resources) (frame : Frame) (g : Gateway)
    → (frame.frag_ind == 0) ≡ false
    → Unfinished g
    → EndsKept may g (process_frame frame g)
unfolding process_frame
process_frame-EndsKept may frame g fragmented h after e =
    let (two, read, e') = >>=-eq-done (uint16_at uint16_be frame.payload [] 0) _ e in
    let (collected, done_e, kept) =
      process_frame_stalls frame g (λ whole. absurd (ground arith))
        (uint16_at-short uint16_be frame.payload two read) h in
    subst (Kept may g) (done-injective collected after (sym done_e ∙ e))
      (Keeps-Kept may g collected kept)

if-EndsKept :
    (may : Resources) (b : Bool) (g : Gateway) (x y : Outcome Gateway)
    → (b ≡ true → EndsKept may g x)
    → (b ≡ false → EndsKept may g y)
    → EndsKept may g (if b then x else y)
if-EndsKept may true g x y p q = p refl
if-EndsKept may false g x y p q = q refl

-- A step that is alike before one that keeps.
after-Alike :
    (may : Resources) (g h : Gateway) (o : Outcome Gateway)
    → Unfinished g
    → Alike may g h
    → (Unfinished h → EndsKept may h o)
    → EndsKept may g o
after-Alike may g h o fresh alike rest after e =
    let kept = Alike-Kept may g h fresh alike in Kept-trans may g h after kept (rest kept.0 after e)

Ends-EndsKept :
    (may : Resources) (g : Gateway) (o : Outcome Gateway)
    → Unfinished g
    → Ends may g o
    → EndsKept may g o
Ends-EndsKept may g o fresh ends after e = Alike-Kept may g after fresh (ends after e)

module _ (seconds : ℕ) (frame spare : Bytes) (sensor device : Text) (h : Header) where
  abbrev may : Resources
  may = of_device device

  answered-EndsKept :
      (packet_type : ℕ) (g : Gateway)
      → Unfinished g
      → EndsKept may g (
          receive_params frame spare h.data_count device
            (send_data_status sensor packet_type 0xFF h.data_count g))
  answered-EndsKept packet_type g fresh =
      let sent : Gateway = send_data_status sensor packet_type 0xFF h.data_count g in
      after-Alike may g sent _ fresh
        (published-Alike may g sent (send_data_status_keeps sensor packet_type 0xFF h.data_count g))
        (λ fresh'.
          Ends-EndsKept may sent _ fresh'
            (receive_params-Ends device frame spare h.data_count sent))

  accept-EndsKept :
      (g : Gateway)
      → Unfinished g
      → lookup_device_name sensor g.mapping ≡ some device
      → EndsKept may g (accept seconds frame spare sensor device h g)
  unfolding accept
  accept-EndsKept g fresh known =
      let control = λ (f : Frame) (same : f.sensor_id ≡ sensor). Ends-EndsKept may g _ fresh (
        receive_control-Ends device seconds device f g
          (ap (λ (s : Text). lookup_device_name s g.mapping) same ∙ known)) in
      if-EndsKept may (h.frag_ind == 0) g _ _
        (λ _.
          if-EndsKept may (h.packet_type == 0) g _ _ (λ _. answered-EndsKept 0b001 g fresh)
            (λ _.
              if-EndsKept may (h.packet_type == 2) g _ _ (λ _. answered-EndsKept 0b011 g fresh)
                (λ _.
                  if-EndsKept may (h.packet_type == 4) g _ _ (λ _. control _ refl)
                    (λ _.
                      if-EndsKept may (h.packet_type == 5) g _ _ (λ _. control _ refl)
                        (λ _.
                          Ends-EndsKept may g _ fresh (done-Ends may g g (Alike-refl may g)))))))
        (λ fragmented after e.
          let (placed, p, e') = >>=-eq-done (process_frame _ g) _ e in
          let kept = process_frame-EndsKept may _ g fragmented fresh placed p in
          Kept-trans may g placed after kept (
            Ends-EndsKept may placed _ kept.0
              (receive_params-Ends device frame spare h.data_count placed) after e'))

  receive_known-EndsKept :
      (now : ℕ) (g : Gateway)
      → Unfinished g
      → lookup_device_name sensor g.mapping ≡ some device
      → EndsKept may g (receive_known now seconds frame spare sensor device h g)
  unfolding receive_known on_data_received store_value
  receive_known-EndsKept now g fresh known =
      let touched : Gateway = on_data_received now device g in
      after-Alike may g touched _ fresh
        (stored-Alike device (codes "lastDataTimestamp") (int64 now) g)
        (λ fresh'.
          if-EndsKept may (crc16 h.checked == h.recv_crc) touched _ _
            (λ _. accept-EndsKept touched fresh' known)
            (λ _. Ends-EndsKept may touched _ fresh' (
              done-Ends may touched (reject sensor h touched) (
                published-Alike may touched (reject sensor h touched)
                  (reject_keeps sensor h touched)))))

-- The resources of the device of the sensor of a frame.
abbrev pub owns : Bytes → Gateway → Resources
owns frame g d r = elim (lookup_device_name (read_header frame).sensor g.mapping) [
  | none ↦ false
  | some device ↦ text_eq device d
]

EndsKept-owns :
    (device : Text) (frame : Bytes) (g : Gateway) (o : Outcome Gateway)
    → lookup_device_name (read_header frame).sensor g.mapping ≡ some device
    → EndsKept (of_device device) g o
    → EndsKept (owns frame g) g o
EndsKept-owns device frame g o known ends after e =
    let (still, sdus, mapping, fills, leaves) = ends after e in
    (still, sdus, mapping, fills, λ d r off. leaves d r (sym (is_own d r) ∙ off))
  where
    is_own : (d r : Text) → owns frame g d r ≡ text_eq device d
    is_own d r = rw (owns, known) refl

pub receive-EndsKept :
    (now seconds : ℕ) (frame spare : Bytes) (g : Gateway)
    → Unfinished g
    → EndsKept (owns frame g) g (receive now seconds frame spare g)
unfolding receive
receive-EndsKept now seconds frame spare g fresh =
    let still =
      Ends-EndsKept (owns frame g) g (done g) fresh
        (done-Ends (owns frame g) g g (Alike-refl (owns frame g) g)) in
    if-EndsKept (owns frame g) (ltb (length frame) 9) g _ _ (λ _. still)
      (λ _. elim (Option-cases (lookup_device_name (read_header frame).sensor g.mapping)) [
        | inl unknown ↦ rw unknown still
        | inr (device, known) ↦ rw known (
            EndsKept-owns device frame g _ known (
              receive_known-EndsKept seconds frame spare (read_header frame).sensor device
                (read_header frame) now g fresh known))
      ])

-- The time stamp is the first that a frame writes.
pub on_data_received-Kept :
    (now : ℕ) (device : Text) (frame : Bytes) (g : Gateway)
    → Unfinished g
    → lookup_device_name (read_header frame).sensor g.mapping ≡ some device
    → Kept (owns frame g) g (on_data_received now device g)
unfolding on_data_received store_value
on_data_received-Kept now device frame g fresh known =
    let touched : Gateway = on_data_received now device g in
    EndsKept-owns device frame g (done touched) known
      (λ after e. subst (Kept (of_device device) g) (done-injective touched after e) (
        Alike-Kept (of_device device) g touched fresh
          (stored-Alike device (codes "lastDataTimestamp") (int64 now) g)))
      touched refl
