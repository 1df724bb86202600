-- ===== src/Service/Handled.antt =====
-- What the handlers of control frames and the loops over parameters of internal/frameparser leave
-- alone: they write values of the device of the sensor at most.
use device_wiresink_go.Prelude.{
  codes, arith, ℕ, zero, suc, ◌+◌, ◌%◌, ◌/◌, ◌^◌, ◌≡◌, refl, subst, ◌∙◌, ap, Bool, true, false, ltb,
  [], ◌∷◌, Option, none, some, if◌then◌else◌, length, Bool-cases, Option-cases, inl, inr, Bytes,
  Text, Assoc,
}
use device_wiresink_go.Prelude.Outcome.{Outcome, done, >>=-eq-done, Result, ok, err}
use device_wiresink_go.Value.{Value, string}
use device_wiresink_go.State.{Frame, Gateway}
use device_wiresink_go.Wire.{uint16_le, uint16_be}
use device_wiresink_go.Config.Mapping.{lookup_device_name}
use device_wiresink_go.Parser.Slices.{byte_at, slice, uint16_at, data_len_at}
use device_wiresink_go.Parser.Params.{topo_after, decode_param, store_param, store_value}
use device_wiresink_go.Parser.Response.Loop.{
  response_store, read_param, walk_params, common_para_response,
}
use device_wiresink_go.Parser.Response.{
  device_or_empty, timestamp_response, reset_response, reset_commands, Handler, common, timestamp,
  reset, commands, lookup_response_handle, run_handler, handle_by_head, handle_frame_ctl,
}
use device_wiresink_go.Parser.Response.Synchronised.{reset_commands-Fills}
use device_wiresink_go.Config.Values.{set_device_value}
use device_wiresink_go.Config.Values.ReadBack.{get_device_value-set_device_value}
use device_wiresink_go.Hex.{itoa}
use device_wiresink_go.Service.Untouched.{
  Resources, of_device, Alike, Alike-refl, Alike-trans, written-Alike, Ends, done-Ends, >>=-Ends,
}
use device_wiresink_go.Parser.Receive.{add_report, params_loop, receive_params, receive_control}

module _ (owner : Text) where
  abbrev own : Resources
  own = of_device owner

  -- A write of a value of the device.
  pub stored-Alike :
      (name : Text) (value : Value) (g : Gateway) → Alike own g (store_value owner name value g)
  unfolding store_value
  stored-Alike name value g =
      written-Alike own g (set_device_value owner name value g.values) (λ d r off.
        ground (arith, get_device_value-set_device_value owner name d r value g.values, off))

  store_param-Alike :
      (o : Option (Text × Value)) (found : Assoc Value) (g : Gateway)
      → Alike own g (store_param owner o found g).1
  unfolding store_param
  store_param-Alike none found g = Alike-refl own g
  store_param-Alike (some (name, value)) found g =
      stored-Alike name value (record g { topo_list = topo_after value g.topo_list })

  response_store-Alike :
      (param_type : ℕ) (bytes : Bytes) (g : Gateway)
      → Alike own g (response_store owner param_type bytes g)
  unfolding response_store
  response_store-Alike param_type bytes g =
      store_param-Alike (decode_param param_type bytes) g.resources g

  walk_params-Ends :
      (fuel left : ℕ) (s : Bytes) (idx : ℕ) (frame : Frame) (g : Gateway)
      → lookup_device_name frame.sensor_id g.mapping ≡ some owner
      → Ends own g (walk_params response_store fuel left s idx frame g)
  unfolding walk_params
  walk_params-Ends fuel zero s idx frame g known = done-Ends own g g (Alike-refl own g)
  walk_params-Ends zero (suc left) s idx frame g known = λ after e. cc
  walk_params-Ends (suc fuel) (suc left) s idx frame g known =
      >>=-Ends own g (read_param uint16_be s idx) _ (λ param e. by_param param (λ next h same.
        walk_params-Ends fuel left s next frame h
          (ap (lookup_device_name frame.sensor_id) same ∙ known)))
    where
      by_param :
          (param : Option (ℕ × Bytes × ℕ))
          → ((next : ℕ) (h : Gateway)
              → h.mapping ≡ g.mapping
              → Ends own h (walk_params response_store fuel left s next frame h))
          → Ends own g (elim param [
            | none ↦ done g
            | some (param_type, bytes, next) ↦ elim (lookup_device_name frame.sensor_id g.mapping) [
              | none ↦ walk_params response_store fuel (suc left) s next frame g
              | some device ↦
                  walk_params response_store fuel left s next frame
                    (response_store device param_type bytes g)
            ]
          ])
      by_param none later = done-Ends own g g (Alike-refl own g)
      by_param (some (param_type, bytes, next)) later =
          let stored : Gateway = response_store owner param_type bytes g in
          let alike = response_store-Alike param_type bytes g in
          rw known
            (λ after e. Alike-trans own g stored after alike (later next stored alike.2 after e))

  timestamp_response-Ends :
      (bytes : Bytes) (frame : Frame) (g : Gateway)
      → lookup_device_name frame.sensor_id g.mapping ≡ some owner
      → Ends own g (timestamp_response bytes frame g)
  unfolding timestamp_response
  timestamp_response-Ends bytes frame g known = >>=-Ends own g (byte_at bytes 0) _ (λ first e.
      >>=-Ends own g (slice bytes [] 0 4) _ (λ seconds e'.
        done-Ends own g _
          (rw (device_or_empty, known) (stored-Alike (codes "timestamp") (string (itoa first)) g))))

  reset_response-Ends :
      (bytes : Bytes) (frame : Frame) (g : Gateway)
      → lookup_device_name frame.sensor_id g.mapping ≡ some owner
      → Ends own g (reset_response bytes frame g)
  unfolding reset_response
  reset_response-Ends bytes frame g known = >>=-Ends own g (byte_at bytes 0) _ (λ first e.
      done-Ends own g _
        (rw (device_or_empty, known) (stored-Alike (codes "reset_ctl") (string (itoa first)) g)))

  reset_commands-Alike :
      (seconds : ℕ) (frame : Frame) (g : Gateway) (r : Result Gateway)
      → reset_commands seconds frame g ≡ done r
      → Alike own g (elim r [ ok after ↦ after | err e ↦ g ])
  reset_commands-Alike seconds frame g r e = elim (reset_commands-Fills seconds frame g r e) [
    | inl (problem, refused) ↦ rw refused (Alike-refl own g)
    | inr (eid, payload, sent, fills) ↦ rw sent (refl, refl, refl, fills, λ d r _. refl)
  ]

  run_handler-Ends :
      (seconds : ℕ) (handler : Handler) (bytes : Bytes) (frame : Frame) (g : Gateway)
      → lookup_device_name frame.sensor_id g.mapping ≡ some owner
      → Ends own g (run_handler seconds handler bytes frame g)
  unfolding run_handler common_para_response
  run_handler-Ends seconds common bytes frame g known =
      >>=-Ends own g
        (walk_params response_store (suc (length bytes)) frame.data_len bytes 0 frame
          (record g { resources = []; resources_flag = false }))
        _
        (λ after e. done-Ends own g _ (
          walk_params-Ends (suc (length bytes)) frame.data_len bytes 0 frame
            (record g { resources = []; resources_flag = false }) known after e))
  run_handler-Ends seconds timestamp bytes frame g known =
      timestamp_response-Ends bytes frame g known
  run_handler-Ends seconds reset bytes frame g known = reset_response-Ends bytes frame g known
  run_handler-Ends seconds commands bytes frame g known =
      >>=-Ends own g (reset_commands seconds frame g) _
        (λ r e. done-Ends own g _ (reset_commands-Alike seconds frame g r e))

  handle_by_head-Ends :
      (seconds : ℕ) (payload : Bytes) (frame : Frame) (g : Gateway)
      → lookup_device_name frame.sensor_id g.mapping ≡ some owner
      → Ends own g (handle_by_head seconds payload frame g)
  unfolding handle_by_head
  handle_by_head-Ends seconds [] frame g known = done-Ends own g g (Alike-refl own g)
  handle_by_head-Ends seconds (head ∷ bytes) frame g known =
      elim (Option-cases (lookup_response_handle head)) [
        | inl unknown ↦ rw (handle_by_head, unknown) (done-Ends own g g (Alike-refl own g))
        | inr (handler, found) ↦
            rw (handle_by_head, found) (run_handler-Ends seconds handler bytes frame g known)
      ]

  if-Alike :
      (b : Bool) (g x y : Gateway)
      → Alike own g x
      → Alike own g y
      → Alike own g (if b then x else y)
  if-Alike true g x y h k = h
  if-Alike false g x y h k = k

  pub receive_control-Ends :
      (seconds : ℕ) (device : Text) (frame : Frame) (g : Gateway)
      → lookup_device_name frame.sensor_id g.mapping ≡ some owner
      → Ends own g (receive_control seconds device frame g)
  unfolding receive_control handle_frame_ctl
  receive_control-Ends seconds device frame g known =
      >>=-Ends own g (handle_by_head seconds frame.payload frame g) _ (λ after e.
        done-Ends own g _ (
          if-Alike after.resources_flag g _ _
            (handle_by_head-Ends seconds frame.payload frame g known after e)
            (handle_by_head-Ends seconds frame.payload frame g known after e)))

  pair-injective :
      (found found' : Assoc Value) (g after : Gateway)
      → ◌≡◌ {A = Outcome (Assoc Value × Gateway)} (done (found, g)) (done (found', after))
      → g ≡ after
  pair-injective found found' g after e = cc

  params_loop-Alike :
      (left : ℕ) (frame spare : Bytes) (idx : ℕ) (found found' : Assoc Value) (g after : Gateway)
      → params_loop left frame spare idx owner found g ≡ done (found', after)
      → Alike own g after
  unfolding params_loop
  params_loop-Alike zero frame spare idx found found' g after e =
      subst (Alike own g) (pair-injective found found' g after e) (Alike-refl own g)
  params_loop-Alike (suc left) frame spare idx found found' g after e =
      elim (Bool-cases (ltb (length frame) (idx + 2 + 2))) [
        | inl short ↦
            subst (Alike own g) (pair-injective found found' g after (rw short at e))
              (Alike-refl own g)
        | inr long ↦
            let (head, h, e1) =
              >>=-eq-done (uint16_at uint16_le frame spare idx) _ (rw long at e) in
            let (d, f, e2) =
              >>=-eq-done (data_len_at uint16_le frame spare (head % 2 ^ 2) (idx + 2)) _ e1 in
            let (bytes, k, e3) = >>=-eq-done (slice frame spare d.1 (d.1 + d.0)) _ e2 in
            let stored = store_param owner (decode_param (head / 2 ^ 2) bytes) found g in
            Alike-trans own g stored.1 after
              (store_param-Alike (decode_param (head / 2 ^ 2) bytes) found g)
              (params_loop-Alike left frame spare (d.1 + d.0) stored.0 found' stored.1 after e3)
      ]

  pub receive_params-Ends :
      (frame spare : Bytes) (count : ℕ) (g : Gateway)
      → Ends own g (receive_params frame spare count owner g)
  unfolding receive_params
  receive_params-Ends frame spare count g =
      >>=-Ends own g (params_loop count frame spare 7 owner [] g) _ (λ (found, after) e.
        reported found after (params_loop-Alike count frame spare 7 [] found g after e))
    where
      reported :
          (found : Assoc Value) (after : Gateway)
          → Alike own g after
          → Ends own g (elim found [
            | [] ↦ done after
            | value ∷ rest ↦ done (add_report owner (value ∷ rest) after)
          ])
      reported [] after kept = done-Ends own g after kept
      reported (value ∷ rest) after kept = done-Ends own g _ kept
