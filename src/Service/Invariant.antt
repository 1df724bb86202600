-- ===== src/Service/Invariant.antt =====
-- What holds in every state of the service.
use device_wiresink_go.Prelude.{
  true, false, Bool-cases, none, ◌≤◌, ◌≡◌, inl, inr, refl, sym, ◌∙◌, subst, arith, List, [], ◌∷◌,
  length, length-append, Bytes, Text, Distinct, All,
}
use device_wiresink_go.Value.{Value}
use device_wiresink_go.Config.Values.{get_device_value}
use device_wiresink_go.State.{Gateway}
use device_wiresink_go.Mqtt.Ingress.{JsonCodec}
use device_wiresink_go.Mqtt.Ingress.Delivered.{Offered, sink_msg_handler-Offered}
use device_wiresink_go.Config.Mapping.{Mapping, lookup_device_name}
use device_wiresink_go.Parser.Receive.{on_data_received}
use device_wiresink_go.Parser.Sharding.{reassemble_timeout}
use device_wiresink_go.Parser.Sharding.Caches.{Open, Unfinished}
use device_wiresink_go.Config.Tool.{write_chan_capacity}
use device_wiresink_go.Config.Tool.Queue.{Fills}
use device_wiresink_go.Prelude.Outcome.{done}
use device_wiresink_go.Driver.Start.{stop}
use device_wiresink_go.Driver.Commands.{handle_write_commands}
use device_wiresink_go.Driver.Devices.{Metadata, add_device, update_device, remove_device}
use device_wiresink_go.Driver.Health.{health_tick}
use device_wiresink_go.Service.{
  shut, Service, Step, arrive, parse, block, complete, time_out, write, add, update, remove, check,
  Reaches, here, then_step,
}
use device_wiresink_go.Service.Commanded.{
  states, health_tick-Alike, handle_write_commands-Alike, add_device-Alike,
  reassemble_timeout-Keeps, remove_device-Distinct,
}
use device_wiresink_go.Service.Untouched.{
  Resources, nothing, anything, of_device, Leaves, done-injective, Alike,
}
use device_wiresink_go.Service.Received.{
  owns, Kept, Alike-Kept, Keeps-Kept, receive-EndsKept, on_data_received-Kept,
}

-- At most 128 frames and 100 AT commands wait, no cache has noted a last fragment, no SDU was
-- completed, and the map of sensors repeats no key.
abbrev pub Healthy : Service → Type 0
Healthy s =
    (length s.queue ≤ 128)
    × Unfinished s.gateway
    × (s.gateway.sdus ≡ [])
    × Distinct s.gateway.mapping
    × (length s.gateway.at_commands ≤ write_chan_capacity)

-- No AT command was taken out of `WriteChan`, a closed one stays closed, and a sensor that is not
-- mapped stays so.
abbrev pub Grows : Gateway → Gateway → Type 0
Grows g after =
    (length g.at_commands ≤ length after.at_commands)
    × (g.write_chan_closed ≡ true → after.write_chan_closed ≡ true)
    × ((sensor : Text)
        → lookup_device_name sensor g.mapping ≡ none
        → lookup_device_name sensor after.mapping ≡ none)

Grows-refl : (g : Gateway) → Grows g g
Grows-refl g = (omega arith, λ closed. closed, λ sensor unmapped. unmapped)

Grows-trans : (g h k : Gateway) → Grows g h → Grows h k → Grows g k
Grows-trans g h k (a, b, c) (d, e, f) =
    (omega arith, λ closed. e (b closed), λ sensor unmapped. f sensor (c sensor unmapped))

Fills-Grows :
    (g after : Gateway)
    → Fills g after
    → ((sensor : Text)
        → lookup_device_name sensor g.mapping ≡ none
        → lookup_device_name sensor after.mapping ≡ none)
    → Grows g after
Fills-Grows g after (more, room, same) unmapped = (more, λ closed. same ∙ closed, unmapped)

-- What a turn that may write some resources makes of a healthy state.
abbrev Moves : Resources → Service → Service → Type 0
Moves may s t = Healthy t × Grows s.gateway t.gateway × Leaves may s.gateway t.gateway

Kept-Moves :
    (may : Resources) (s : Service) (after : Gateway)
    → Healthy s
    → Kept may s.gateway after
    → Moves may s (record s { gateway = after })
Kept-Moves may s after (queue, fresh, none_done, distinct, room)
      (still, sdus, mapping, fills, leaves) =
    (
      (
        queue,
        still,
        sdus ∙ none_done,
        subst (λ (m : Mapping). Distinct m) (sym mapping) distinct,
        fills.1 room,
      ),
      Fills-Grows s.gateway after fills (λ sensor unmapped.
          subst (λ (m : Mapping). lookup_device_name sensor m ≡ none) (sym mapping) unmapped),
      leaves,
    )

Alike-Moves :
    (may : Resources) (s : Service) (after : Gateway)
    → Healthy s
    → Alike may s.gateway after
    → Moves may s (record s { gateway = after })
Alike-Moves may s after h alike =
    Kept-Moves may s after h (Alike-Kept may s.gateway after h.1 alike)

Offered-length :
    (queue after : List Bytes) → length queue ≤ 128 → Offered queue after → length after ≤ 128
Offered-length queue after room (inl same) = rw same room
Offered-length queue after room (inr (raw, same, free)) =
    rw same (omega (arith, length-append queue (raw ∷ [])))

shorter : (frame : Bytes) (rest : List Bytes) → length (frame ∷ rest) ≤ 128 → length rest ≤ 128
shorter frame rest h = omega arith

stop-Moves :
    (s : Service) (after : Gateway)
    → Healthy s
    → stop s.gateway ≡ done after
    → Moves nothing s (record s { gateway = after })
unfolding stop
stop-Moves s after h e = elim (Bool-cases s.gateway.write_chan_closed) [
  | inl closed ↦ cc
  | inr running ↦
      let stopped : Gateway = record s.gateway { write_chan_closed = true } in
      let same : stopped ≡ after = done-injective stopped after (sym (rw running refl) ∙ e) in
      subst (λ (g : Gateway). Moves nothing s (record s { gateway = g })) same
        (h, (omega arith, λ _. refl, λ sensor unmapped. unmapped), λ d r _. refl)
]

module _ (codec : JsonCodec) (sdk : Metadata) (parse_default : Text → Text → Value) where
  -- The resources that a turn may write.
  unfoldable pub writes : {s t : Service} → Step codec sdk parse_default s t → Resources
  writes (arrive message e) = nothing
  writes {s} (parse now seconds frame spare waiting after runs waits e same) = owns frame s.gateway
  writes {s} (block now seconds frame spare waiting device runs waits e known same) =
      owns frame s.gateway
  writes (complete frame waiting after waits e same) = anything
  writes (time_out key e) = nothing
  writes (write clock device names params e) = nothing
  writes (add device e) = of_device device
  writes (update device e) = of_device device
  writes (remove device e) = of_device device
  writes (check now e) = states
  writes (shut after runs stopped e) = nothing

  Step-Moves :
      (s t : Service)
      → Healthy s
      → (step : Step codec sdk parse_default s t) → Moves (writes step) s t
  unfolding writes
  Step-Moves s t (queue, fresh, none_done, distinct, room) (arrive message e) =
      subst (Moves nothing s) (sym e) (
        (
          Offered-length s.queue _ queue (sink_msg_handler-Offered codec message s.queue),
          fresh,
          none_done,
          distinct,
          room,
        ),
        Grows-refl s.gateway,
        λ d r _. refl,
      )
  Step-Moves s t (queue, fresh, none_done, distinct, room)
        (parse now seconds frame spare waiting after runs waits e same) =
      subst (Moves (owns frame s.gateway) s) (sym same) (
        Kept-Moves (owns frame s.gateway)
          (record { queue = waiting; gateway = s.gateway; parser_blocked = false }) after
          (shorter frame waiting (rw waits at queue), fresh, none_done, distinct, room)
          (receive-EndsKept now seconds frame spare s.gateway fresh after e))
  Step-Moves s t (queue, fresh, none_done, distinct, room)
        (block now seconds frame spare waiting device runs waits e known same) =
      subst (Moves (owns frame s.gateway) s) (sym same) (
        Kept-Moves (owns frame s.gateway)
          (record { queue = waiting; gateway = s.gateway; parser_blocked = true })
          (on_data_received now device s.gateway)
          (shorter frame waiting (rw waits at queue), fresh, none_done, distinct, room)
          (on_data_received-Kept now device frame s.gateway fresh known))
  Step-Moves s t (queue, fresh, none_done, distinct, room)
        (complete frame waiting after waits e same) =
      cc
  Step-Moves s t h (time_out key e) = subst (Moves nothing s) (sym e) (
      Kept-Moves nothing s (reassemble_timeout key s.gateway) h (
        Keeps-Kept nothing s.gateway (reassemble_timeout key s.gateway)
          (reassemble_timeout-Keeps key s.gateway h.1)))
  Step-Moves s t h (write clock device names params e) = subst (Moves nothing s) (sym e) (
      Alike-Moves nothing s (handle_write_commands clock device names params s.gateway).0 h
        (handle_write_commands-Alike clock device names params s.gateway))
  Step-Moves s t h (add device e) = subst (Moves (of_device device) s) (sym e) (
      Alike-Moves (of_device device) s (add_device sdk parse_default device s.gateway).0 h
        (add_device-Alike sdk parse_default device s.gateway).0)
  Step-Moves s t h (update device e) = subst (Moves (of_device device) s) (sym e) (
      Alike-Moves (of_device device) s (update_device sdk parse_default device s.gateway).0 h
        (add_device-Alike sdk parse_default device s.gateway).1)
  Step-Moves s t (queue, fresh, none_done, distinct, room) (remove device e) =
      let (still, caches, sdus, fills, unmapped, leaves) =
        remove_device-Distinct device s.gateway distinct in
      subst (Moves (of_device device) s) (sym e) (
        (queue, subst (All Open) (sym caches) fresh, sdus ∙ none_done, still, fills.1 room),
        Fills-Grows s.gateway (remove_device device s.gateway).0 fills unmapped,
        leaves,
      )
  Step-Moves s t h (check now e) = subst (Moves states s) (sym e) (
      Alike-Moves states s (record s.gateway { values = health_tick now s.gateway.values }) h
        (health_tick-Alike now s.gateway))
  Step-Moves s t h (shut after runs stopped e) =
      subst (Moves nothing s) (sym e) (stop-Moves s after h stopped)

  Reaches-Moves :
      (start s : Service)
      → Healthy start
      → Reaches codec sdk parse_default start s
      → Healthy s × Grows start.gateway s.gateway
  Reaches-Moves start _ h here = (h, Grows-refl start.gateway)
  Reaches-Moves start _ h (then_step {s} {t} r one) =
      let (before, grown) = Reaches-Moves start s h r in
      let (after, grows, leaves) = Step-Moves s t before one in
      (after, Grows-trans start.gateway s.gateway t.gateway grown grows)

  -- In every state that the turns of the service lead to from a healthy one, at most 128 frames and
  -- at most 100 AT commands wait, no SDU was ever completed, whatever fragments arrived, and the
  -- map of sensors repeats no key.
  pub Reaches-Healthy :
      (start s : Service) → Healthy start → Reaches codec sdk parse_default start s → Healthy s
  Reaches-Healthy start s h r = (Reaches-Moves start s h r).0

  -- What turns of the service never take back.
  pub Reaches-Grows :
      (start s : Service)
      → Healthy start
      → Reaches codec sdk parse_default start s
      → Grows start.gateway s.gateway
  Reaches-Grows start s h r = (Reaches-Moves start s h r).1

  -- A turn of the service from a healthy state changes no value but those that it may write: the
  -- handling of a frame, whatever its bytes, also one that never ends, those of the device that its
  -- sensor is mapped to; `AddDevice`, `UpdateDevice` and `RemoveDevice` those of their device; the
  -- health check those of the resource `state`; and an arriving message, a timeout, a write command
  -- and `Stop` none.
  pub Step-writes :
      (s t : Service) (step : Step codec sdk parse_default s t) (d r : Text)
      → Healthy s
      → writes step d r ≡ false
      → get_device_value d r t.gateway.values ≡ get_device_value d r s.gateway.values
  Step-writes s t step d r h off = (Step-Moves s t h step).2 d r off
