-- ===== src/Driver/Listener/Rounds.antt =====
-- How `StartControlListener` of internal/driver/listener.go answers a write.
use device_wiresink_go.Prelude.{
  ℕ, ◌≡◌, refl, ◌∙◌, arith, Bool, true, false, some, if◌then◌else◌, Option-cases, inl, inr, Text,
  text_eq_refl, lookup,
}
use device_wiresink_go.Prelude.Outcome.{done}
use device_wiresink_go.Value.{Value, int}
use device_wiresink_go.State.{Gateway}
use device_wiresink_go.Config.Values.{get_device_value, get_device_values}
use device_wiresink_go.Config.Values.ReadBack.{get_device_value-set_device_value}
use device_wiresink_go.Parser.Params.{store_value}
use device_wiresink_go.Driver.Listener.{
  Listener, any_eq, same_as_last, handle_change, listener_tick,
}

module _ (float_eq : ℕ → ℕ → ℕ → Bool) (handler : Value → Gateway → Gateway)
    (device resource : Text) where
  -- A tick by the value that it finds.
  listener_tick-found :
      (s : Listener) (cur : Value) (same : Bool)
      → get_device_value device resource s.gateway.values ≡ some cur
      → same_as_last float_eq handler device resource cur s.last ≡ done same
      → listener_tick float_eq handler device resource s
        ≡ done (if same then s else handle_change float_eq handler device resource cur s.gateway)
  unfolding listener_tick get_device_values get_device_value
  listener_tick-found s cur same found e = elim (Option-cases (lookup device s.gateway.values)) [
    | inl missing ↦ absurd (ground arith)
    | inr (vals, present) ↦
        let held : lookup resource vals ≡ some cur = ground arith in
        rw (listener_tick, get_device_values, present, held, e) refl
  ]

  -- What the handler leaves, with the resource set back.
  abbrev pub answered : Value → Gateway → Gateway
  answered v g = store_value device resource (int 0) (handler v g)

  reset-found :
      (v : Value) (g : Gateway)
      → get_device_value device resource (answered v g).values ≡ some (int 0)
  unfolding store_value
  reset-found v g =
      get_device_value-set_device_value device resource device resource (int 0) (handler v g).values
      ∙ simp text_eq_refl

  -- A value other than the int 0 that the listener has not seen last is handled in one tick; in the
  -- next tick the handler is called once more, with the 0 that the listener wrote itself; then the
  -- ticks change nothing until the next write.
  pub listener_tick-handled :
      (s : Listener) (v : Value)
      → get_device_value device resource s.gateway.values ≡ some v
      → same_as_last float_eq handler device resource v s.last ≡ done false
      → any_eq float_eq (int 0) v ≡ done false
      → let one : Listener = record { last = some v; gateway = answered v s.gateway } in
        let two : Listener = record {
          last = some (int 0);
          gateway = answered (int 0) one.gateway;
        } in
        (listener_tick float_eq handler device resource s ≡ done one)
        × (listener_tick float_eq handler device resource one ≡ done two)
        × (listener_tick float_eq handler device resource two ≡ done two)
  unfolding handle_change
  listener_tick-handled s v found fresh other =
      let one : Listener = record { last = some v; gateway = answered v s.gateway } in
      let two : Listener = record { last = some (int 0); gateway = answered (int 0) one.gateway } in
      (
        listener_tick-found s v false found fresh,
        listener_tick-found one (int 0) false (reset-found v s.gateway) other,
        listener_tick-found two (int 0) true (reset-found (int 0) one.gateway)
            (unfold any_eq in refl),
      )
