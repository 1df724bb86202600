-- ===== src/Parser/Receive/Ending.antt =====
-- The loop body of `StartParser` of internal/frameparser/parser.go on every frame: its loops end.
use device_wiresink_go.Prelude.{
  ℕ, zero, suc, ◌+◌, ◌%◌, ◌/◌, ◌^◌, ◌==◌, ◌&&◌, ltb, not, ◌≢◌, Bool, true, false, [], ◌∷◌,
  if◌then◌else◌, Option-cases, inl, inr, length, lookup, Bytes, Text, Assoc,
}
use device_wiresink_go.Prelude.Outcome.{Outcome, done, stuck, >>=-ne-stuck, out_of_fuel, err}
use device_wiresink_go.Config.Topo.{parse_topo}
use device_wiresink_go.Config.Topo.Ending.{parse_topo-ends}
use device_wiresink_go.Wire.{uint16_le, uint16_be}
use device_wiresink_go.Crc.{crc16}
use device_wiresink_go.Value.{Value}
use device_wiresink_go.State.{Frame, SduCache, Gateway}
use device_wiresink_go.Config.Mapping.{lookup_device_name}
use device_wiresink_go.Parser.Slices.{byte_at, slice, uint16_at, data_len_at}
use device_wiresink_go.Parser.Params.{decode_param, store_param}
use device_wiresink_go.Parser.Response.{
  timestamp_response, reset_response, reset_commands, Handler, common, timestamp, reset, commands,
  lookup_response_handle, run_handler, handle_by_head, handle_frame_ctl,
}
use device_wiresink_go.Parser.Response.Runs.{
  byte_at-ne-stuck, slice-ne-stuck, uint16_at-ne-stuck, data_len_at-ne-stuck,
  common_para_response-ne-stuck,
}
use device_wiresink_go.Parser.Response.Synchronised.{reset_commands-ne-stuck}
use device_wiresink_go.Parser.Sharding.{
  finalize, first_fragment, same_sdu, place_fragment, read_fragment, process_frame, is_start,
  is_end, accept_due,
}
use device_wiresink_go.Parser.Sharding.Merged.{accept_due-ends}
use device_wiresink_go.Parser.Receive.{
  on_data_received, add_report, params_loop, receive_params, receive_control, accept, receive_known,
  receive,
}
use device_wiresink_go.Parser.Receive.Fields.{Header, read_header}

if-ne-stuck :
    (b : Bool) (x y : Outcome Gateway) → x ≢ stuck → y ≢ stuck → (if b then x else y) ≢ stuck
if-ne-stuck true x y h k = h
if-ne-stuck false x y h k = k

done-ne-stuck : (g : Gateway) → done g ≢ stuck
done-ne-stuck g e = cc

run_handler-ne-stuck :
    (seconds : ℕ) (handler : Handler) (bytes : Bytes) (frame : Frame) (g : Gateway)
    → run_handler seconds handler bytes frame g ≢ stuck
unfolding run_handler timestamp_response reset_response
run_handler-ne-stuck seconds common bytes frame g = common_para_response-ne-stuck bytes frame g
run_handler-ne-stuck seconds timestamp bytes frame g =
    >>=-ne-stuck (byte_at bytes 0) _ (byte_at-ne-stuck bytes 0)
      (λ first _. >>=-ne-stuck (slice bytes [] 0 4) _ (slice-ne-stuck bytes [] 0 4) (λ _ _ e. cc))
run_handler-ne-stuck seconds reset bytes frame g =
    >>=-ne-stuck (byte_at bytes 0) _ (byte_at-ne-stuck bytes 0) (λ _ _ e. cc)
run_handler-ne-stuck seconds commands bytes frame g =
    >>=-ne-stuck (reset_commands seconds frame g) _ (reset_commands-ne-stuck seconds frame g)
      (λ _ _ e. cc)

handle_by_head-ne-stuck :
    (seconds : ℕ) (payload : Bytes) (frame : Frame) (g : Gateway)
    → handle_by_head seconds payload frame g ≢ stuck
unfolding handle_by_head
handle_by_head-ne-stuck seconds [] frame g = done-ne-stuck g
handle_by_head-ne-stuck seconds (head ∷ bytes) frame g =
    elim (Option-cases (lookup_response_handle head)) [
      | inl unknown ↦ rw (handle_by_head, unknown) (λ e. cc)
      | inr (handler, known) ↦
          rw (handle_by_head, known) (run_handler-ne-stuck seconds handler bytes frame g)
    ]

params_loop-ne-stuck :
    (left : ℕ) (frame spare : Bytes) (idx : ℕ) (device : Text) (found : Assoc Value) (g : Gateway)
    → params_loop left frame spare idx device found g ≢ stuck
unfolding params_loop
params_loop-ne-stuck zero frame spare idx device found g = λ e. cc
params_loop-ne-stuck (suc left) frame spare idx device found g =
    choose (ltb (length frame) (idx + 2 + 2)) (done (found, g)) _ (λ e. cc)
      (>>=-ne-stuck (uint16_at uint16_le frame spare idx) _
        (uint16_at-ne-stuck uint16_le frame spare idx)
        (λ head16 _.
          >>=-ne-stuck (data_len_at uint16_le frame spare (head16 % 2 ^ 2) (idx + 2)) _
            (data_len_at-ne-stuck uint16_le frame spare (head16 % 2 ^ 2) (idx + 2))
            (λ d _.
              >>=-ne-stuck (slice frame spare d.1 (d.1 + d.0)) _
                (slice-ne-stuck frame spare d.1 (d.1 + d.0))
                (λ bytes _.
                  let stored = store_param device (decode_param (head16 / 2 ^ 2) bytes) found g in
                  params_loop-ne-stuck left frame spare (d.1 + d.0) device stored.0 stored.1))))
  where
    choose :
        (b : Bool) (x y : Outcome (Assoc Value × Gateway))
        → x ≢ stuck
        → y ≢ stuck
        → (if b then x else y) ≢ stuck
    choose true x y h k = h
    choose false x y h k = k

receive_params-ne-stuck :
    (frame spare : Bytes) (count : ℕ) (device : Text) (g : Gateway)
    → receive_params frame spare count device g ≢ stuck
unfolding receive_params
receive_params-ne-stuck frame spare count device g =
    >>=-ne-stuck (params_loop count frame spare 7 device [] g) _
      (params_loop-ne-stuck count frame spare 7 device [] g) (λ (found, after) _. ends found after)
  where
    ends :
        (found : Assoc Value) (after : Gateway)
        → (elim found [
          | [] ↦ done after
          | value ∷ rest ↦ done (add_report device (value ∷ rest) after)
        ])
          ≢ stuck
    ends [] after e = cc
    ends (value ∷ rest) after e = cc

receive_control-ne-stuck :
    (seconds : ℕ) (device : Text) (frame : Frame) (g : Gateway)
    → receive_control seconds device frame g ≢ stuck
unfolding receive_control handle_frame_ctl
receive_control-ne-stuck seconds device frame g =
    >>=-ne-stuck (handle_by_head seconds frame.payload frame g) _
      (handle_by_head-ne-stuck seconds frame.payload frame g) (λ _ _ e. cc)

-- A completed SDU panics or is sent.
finalize-ne-stuck : (key : Text) (frame : Frame) (g : Gateway) → finalize key frame g ≢ stuck
unfolding finalize
finalize-ne-stuck key frame g = elim (Option-cases (lookup key g.caches)) [
  | inl missing ↦ rw (finalize, missing) (λ e. cc)
  | inr (cache, held) ↦ rw (finalize, held) (λ e. cc)
]

first_fragment-ne-stuck :
    (key : Text) (frame : Frame) (sseq pseq : ℕ) (contents : Bytes) (g : Gateway)
    → first_fragment key frame sseq pseq contents g ≢ stuck
unfolding first_fragment
first_fragment-ne-stuck key frame sseq pseq contents g =
    if-ne-stuck (is_start pseq) _ _
      (if-ne-stuck (is_end pseq) _ _ (finalize-ne-stuck key frame _) (done-ne-stuck _))
      (done-ne-stuck _)

same_sdu-ne-stuck :
    (key : Text) (frame : Frame) (cache : SduCache) (pseq : ℕ) (contents : Bytes) (g : Gateway)
    → same_sdu key frame cache pseq contents g ≢ stuck
unfolding same_sdu
same_sdu-ne-stuck key frame cache pseq contents g =
    let (next, merged, waits) = accept_due-ends pseq contents cache in
    if-ne-stuck (ltb pseq cache.expected) _ _ (done-ne-stuck _) (
      if-ne-stuck (ltb cache.expected pseq) _ _ (done-ne-stuck _) (
        >>=-ne-stuck (accept_due pseq contents cache) _ (λ e. cc)
          (λ later _.
            if-ne-stuck (not (later.final_pseq == 0) && ltb later.final_pseq later.expected) _ _
              (finalize-ne-stuck key frame _) (done-ne-stuck _))))

place_fragment-ne-stuck :
    (key : Text) (frame : Frame) (sseq pseq : ℕ) (contents : Bytes) (g : Gateway)
    → place_fragment key frame sseq pseq contents g ≢ stuck
unfolding place_fragment
place_fragment-ne-stuck key frame sseq pseq contents g = elim (Option-cases (lookup key g.caches)) [
  | inl missing ↦
      rw (place_fragment, missing) (first_fragment-ne-stuck key frame sseq pseq contents g)
  | inr (cache, held) ↦
      rw (place_fragment, held)
        (if-ne-stuck (cache.sseq == sseq) _ _ (same_sdu-ne-stuck key frame cache pseq contents g) (
          if-ne-stuck (is_start pseq) _ _ (first_fragment-ne-stuck key frame sseq pseq contents _)
            (done-ne-stuck _)))
]

process_frame-ne-stuck : (frame : Frame) (g : Gateway) → process_frame frame g ≢ stuck
unfolding process_frame read_fragment
process_frame-ne-stuck frame g =
    >>=-ne-stuck (uint16_at uint16_be frame.payload [] 0) _
      (uint16_at-ne-stuck uint16_be frame.payload [] 0)
      (λ two _. if-ne-stuck (frame.frag_ind == 0) _ _ (done-ne-stuck _) (
        if-ne-stuck (ltb (length frame.payload) 4) _ _ (done-ne-stuck _) (
          >>=-ne-stuck (uint16_at uint16_le frame.payload [] 2) _
            (uint16_at-ne-stuck uint16_le frame.payload [] 2)
            (λ size _. if-ne-stuck (ltb (length frame.payload) (4 + size)) _ _ (done-ne-stuck _) (
              >>=-ne-stuck (slice frame.payload [] 4 (4 + size)) _
                (slice-ne-stuck frame.payload [] 4 (4 + size))
                (λ contents _.
                  place_fragment-ne-stuck frame.sensor_id frame (two / 2 ^ 10 % 2 ^ 8)
                    (two / 2 % 2 ^ 7) contents g))))))

accept-ne-stuck :
    (seconds : ℕ) (frame spare : Bytes) (sensor device : Text) (h : Header) (g : Gateway)
    → accept seconds frame spare sensor device h g ≢ stuck
unfolding accept
accept-ne-stuck seconds frame spare sensor device h g =
    let params = receive_params-ne-stuck frame spare h.data_count device in
    let control = λ (f : Frame). receive_control-ne-stuck seconds device f g in
    if-ne-stuck (h.frag_ind == 0) _ _
      (if-ne-stuck (h.packet_type == 0) _ _ (params _) (
        if-ne-stuck (h.packet_type == 2) _ _ (params _) (
          if-ne-stuck (h.packet_type == 4) _ _ (control _)
            (if-ne-stuck (h.packet_type == 5) _ _ (control _) (done-ne-stuck g)))))
      (>>=-ne-stuck (process_frame _ g) _ (process_frame-ne-stuck _ g) (λ after _. params after))

receive-ends :
    (now seconds : ℕ) (frame spare : Bytes) (g : Gateway)
    → receive now seconds frame spare g ≢ stuck
unfolding receive receive_known
receive-ends now seconds frame spare g =
    if-ne-stuck (ltb (length frame) 9) _ _ (done-ne-stuck g)
      (elim (Option-cases (lookup_device_name (read_header frame).sensor g.mapping)) [
        | inl unknown ↦ rw unknown (done-ne-stuck g)
        | inr (device, known) ↦ rw known (
            if-ne-stuck (crc16 (read_header frame).checked == (read_header frame).recv_crc) _ _
              (accept-ne-stuck seconds frame spare (read_header frame).sensor device
                (read_header frame) (on_data_received now device g))
              (done-ne-stuck _))
      ])

-- The loops of the handling of a frame end, whatever the frame, what its array holds behind it, and
-- the state: the fuel of the model is enough in every branch, the merging of early fragments
-- included, so the handling gives a state, panics, or waits for room in `WriteChan`; and the fuel
-- of `parseTopo` is enough for all bytes.
pub receive-ne-stuck :
    (now seconds : ℕ) (frame spare : Bytes) (g : Gateway)
    → (receive now seconds frame spare g ≢ stuck)
      × ((bytes : Bytes) → parse_topo bytes ≢ err out_of_fuel)
receive-ne-stuck now seconds frame spare g =
    (receive-ends now seconds frame spare g, parse_topo-ends)
