-- ===== src/Parser/Sharding/Stalled.antt =====
-- What `ProcessFrame` of internal/frameparser/sharding.go does with the fragments of an SDU.
use device_wiresink_go.Prelude.{
  ℕ, suc, ◌+◌, ◌/◌, ◌%◌, ◌^◌, ◌<◌, ◌≤◌, ◌==◌, ◌&&◌, ltb, not, ◌≡◌, ◌≢◌, refl, sym, ap, ◌∙◌, inl,
  inr, arith, Bool, true, false, [], ◌++◌, if◌then◌else◌, Option-cases, length, take, drop, get_or,
  ◌-◌, Bytes, Text, All, subst, lookup, delete, ==_iff,
}
use device_wiresink_go.Prelude.Outcome.{Outcome, done, ◌>>=◌}
use device_wiresink_go.State.{Frame, SduCache, Gateway}
use device_wiresink_go.Mqtt.Egress.{send_frame_keeps}
use device_wiresink_go.Wire.{uint16_le, uint16_be}
use device_wiresink_go.Parser.Slices.{slice, uint16_at}
use device_wiresink_go.Parser.Sharding.{
  is_start, is_end, put_cache, first_fragment, note_end, accept_due, same_sdu, place_fragment,
  read_fragment, process_frame,
}
use device_wiresink_go.Parser.Sharding.Ack.{send_ack}
use device_wiresink_go.Parser.Sharding.Merged.{Merged, merge-Merged}
use device_wiresink_go.Parser.Sharding.Caches.{
  Open, Unfinished, insert-Open, delete-Open, lookup-Open,
}

abbrev pub Keeps : Gateway → Gateway → Type 0
Keeps g after =
    Unfinished after
    × (after.sdus ≡ g.sdus)
    × (after.mapping ≡ g.mapping)
    × (after.at_commands ≡ g.at_commands)
    × (after.write_chan_closed ≡ g.write_chan_closed)
    × (after.values ≡ g.values)

-- It ran to the end, completed no SDU, noted no last fragment, and left the map of sensors, the AT
-- commands and the values alone.
abbrev pub Collects : Gateway → Outcome Gateway → Type 0
Collects g o = (after : Gateway) × (o ≡ done after) × Keeps g after

is_end-lt : (pseq : ℕ) → pseq < 2 ^ 7 → is_end pseq ≡ false
unfolding is_end
is_end-lt pseq h = ground arith

note_end-lt : (pseq : ℕ) (cache : SduCache) → pseq < 2 ^ 7 → note_end pseq cache ≡ cache
note_end-lt pseq cache h = rw (is_end-lt pseq h) refl

accept_due-Merged :
    (pseq : ℕ) (contents : Bytes) (cache : SduCache)
    → pseq < 2 ^ 7
    → Merged cache (accept_due pseq contents cache)
unfolding accept_due
accept_due-Merged pseq contents cache h =
    rw (note_end-lt pseq _ h) (merge-Merged (suc (length cache.out_of_order)) _ (omega arith))

pub send_ack-Keeps :
    (key : Text) (sseq pseq : ℕ) (ok : Bool) (g : Gateway)
    → Unfinished g
    → Keeps g (send_ack key sseq ok pseq g)
unfolding send_ack
send_ack-Keeps key sseq pseq ok g h =
    let kept = send_frame_keeps _ _ g in
    (
      subst (All Open) (sym (ap (λ (s : Gateway). s.caches) kept)) h,
      ap (λ (s : Gateway). s.sdus) kept,
      ap (λ (s : Gateway). s.mapping) kept,
      ap (λ (s : Gateway). s.at_commands) kept,
      ap (λ (s : Gateway). s.write_chan_closed) kept,
      ap (λ (s : Gateway). s.values) kept,
    )

put_cache-Keeps :
    (key : Text) (cache : SduCache) (g after : Gateway)
    → cache.final_pseq ≡ 0
    → Keeps g after
    → Keeps g (put_cache key cache after)
put_cache-Keeps key cache g after unnoted (h, same, mapped, commands, closed, values) =
    (insert-Open key cache after.caches unnoted h, same, mapped, commands, closed, values)

collected : (g after : Gateway) → Keeps g after → Collects g (done after)
collected g after kept = (after, refl, kept)

if-Collects :
    (b : Bool) (g : Gateway) (x y : Outcome Gateway)
    → (b ≡ true → Collects g x)
    → (b ≡ false → Collects g y)
    → Collects g (if b then x else y)
if-Collects true g x y p q = p refl
if-Collects false g x y p q = q refl

module _ (key : Text) (frame : Frame) (sseq pseq : ℕ) (small : pseq < 2 ^ 7)
    (contents : Bytes) where
  first_fragment-Collects :
      (g : Gateway) → Unfinished g → Collects g (first_fragment key frame sseq pseq contents g)
  unfolding first_fragment
  first_fragment-Collects g h =
      let sent = send_ack key sseq true pseq g in
      let acked = send_ack-Keeps key sseq pseq true g h in
      if-Collects (is_start pseq) g _ _
        (λ _.
          if-Collects (is_end pseq) g _ _ (λ last. let short = is_end-lt pseq small in cc)
            (λ _. collected g _ (put_cache-Keeps key _ g sent refl acked)))
        (λ _. collected g _ (send_ack-Keeps key sseq pseq false g h))

  same_sdu-Collects :
      (cache : SduCache) (g : Gateway)
      → cache.final_pseq ≡ 0
      → Unfinished g
      → Collects g (same_sdu key frame cache pseq contents g)
  unfolding same_sdu
  same_sdu-Collects cache g unnoted h =
      let sent = send_ack key cache.sseq true pseq g in
      let acked = send_ack-Keeps key cache.sseq pseq true g h in
      let (next, merged, waits, kept) = accept_due-Merged pseq contents cache small in
      let later = kept ∙ unnoted in
      if-Collects (ltb pseq cache.expected) g _ _ (λ _. collected g _ acked)
        (λ _.
          if-Collects (ltb cache.expected pseq) g _ _
            (λ _. collected g _ (
              put_cache-Keeps key _ g sent
                (ap (λ (c : SduCache). c.final_pseq) (note_end-lt pseq _ small) ∙ unnoted) acked))
            (λ _. rw merged (
              if-Collects (not (next.final_pseq == 0) && ltb next.final_pseq next.expected) g _ _
                (λ full. absurd (ground (arith, later)))
                (λ _. collected g _ (put_cache-Keeps key next g sent later acked)))))

  place_fragment-Collects :
      (g : Gateway) → Unfinished g → Collects g (place_fragment key frame sseq pseq contents g)
  unfolding place_fragment
  place_fragment-Collects g h = elim (Option-cases (lookup key g.caches)) [
    | inl fresh ↦ rw (place_fragment, fresh) (first_fragment-Collects g h)
    | inr (cache, found) ↦
        rw (place_fragment, found)
          (if-Collects (cache.sseq == sseq) g _ _
            (λ _. same_sdu-Collects cache g (lookup-Open key cache g.caches h found) h)
            (λ _.
              if-Collects (is_start pseq) g _ _
                (λ _.
                  first_fragment-Collects (record g { caches = delete key g.caches })
                    (delete-Open key g.caches h))
                (λ _. collected g _ (send_ack-Keeps key sseq pseq false g h))))
  ]

slice-done :
    (s : Bytes) (lo hi : ℕ)
    → lo ≤ hi
    → hi ≤ length s
    → slice s [] lo hi ≡ done (take (hi - lo) (drop lo (s ++ [])))
unfolding slice
slice-done s lo hi p q = ground arith

uint16_at-done :
    (order : ℕ → ℕ → ℕ) (s : Bytes) (i : ℕ)
    → i + 2 ≤ length s
    → (v : ℕ) × (uint16_at order s [] i ≡ done v)
unfolding uint16_at
uint16_at-done order s i h = (
  _,
  ap (λ o. o >>= λ two. done (order (get_or two 0 0) (get_or two 1 0)))
      (slice-done s i (i + 2) (omega arith) h),
)

read_fragment-Collects :
    (frame : Frame) (sseq pseq : ℕ) (g : Gateway)
    → pseq < 2 ^ 7
    → 4 ≤ length frame.payload
    → Unfinished g
    → Collects g (read_fragment frame sseq pseq g)
unfolding read_fragment
read_fragment-Collects frame sseq pseq g small long h =
    let (size, read) = uint16_at-done uint16_le frame.payload 2 long in
    rw (read_fragment, read)
      (if-Collects (ltb (length frame.payload) (4 + size)) g _ _
        (λ _. collected g _ (send_ack-Keeps frame.sensor_id sseq pseq false g h))
        (λ room.
          rw (slice-done frame.payload 4 (4 + size) (omega arith) (ground arith))
            (place_fragment-Collects frame.sensor_id frame sseq pseq small _ g h)))

-- Where no cache has noted a last fragment, every fragment of at least two bytes is handled to the
-- end, and then still no cache has noted one, no completed SDU was sent to the channel, and the map
-- of sensors, `WriteChan` and the values are as before.
pub process_frame_stalls :
    (frame : Frame) (g : Gateway)
    → frame.frag_ind ≢ 0
    → 2 ≤ length frame.payload
    → Unfinished g
    → Collects g (process_frame frame g)
unfolding process_frame
process_frame_stalls frame g fragmented long h =
    let (two, read) = uint16_at-done uint16_be frame.payload 0 long in
    rw read (
      if-Collects (frame.frag_ind == 0) g _ _
        (λ whole. absurd (fragmented ((==_iff frame.frag_ind 0).0 whole)))
        (λ _.
          if-Collects (ltb (length frame.payload) 4) g _ _
            (λ _. collected g _ (send_ack-Keeps frame.sensor_id (two / 2 ^ 10 % 2 ^ 8) 0 false g h))
            (λ enough.
              read_fragment-Collects frame (two / 2 ^ 10 % 2 ^ 8) (two / 2 % 2 ^ 7) g (omega arith)
                (ground arith) h)))
