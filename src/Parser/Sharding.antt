-- ===== src/Parser/Sharding.antt =====
-- internal/frameparser/sharding.go: reassembly of fragmented frames. Each call of `ProcessFrame`
-- holds `cacheMu` while it works on the caches, so the calls and the timers run one at a time.
pub mod Ack
pub mod Caches
pub mod Completed
pub mod Merged
pub mod Stalled
use device_wiresink_go.Prelude.{
  ℕ, zero, suc, ◌+◌, ◌*◌, ◌/◌, ◌%◌, ◌^◌, ◌==◌, ◌&&◌, ltb, not, Bool, true, false, List, [], ◌∷◌,
  ◌++◌, Option, none, some, if◌then◌else◌, length, take, drop, Bytes, Text, lookup, insert, delete,
}
use device_wiresink_go.Prelude.Outcome.{Outcome, done, panicked, stuck, ◌>>=◌}
use device_wiresink_go.Wire.{uint16_le, uint16_be}
use device_wiresink_go.State.{Frame, SduCache, Gateway}
use device_wiresink_go.Parser.Slices.{slice, uint16_at}
use Ack.{send_ack}

-- The map of fragments that came too early, keyed by PSEQ.
unfoldable pub fragment : ℕ → List (ℕ × Bytes) → Option Bytes
fragment k [] = none
fragment k ((j, d) ∷ rest) = if j == k then some d else fragment k rest

unfoldable pub set_fragment : ℕ → Bytes → List (ℕ × Bytes) → List (ℕ × Bytes)
set_fragment k d [] = (k, d) ∷ []
set_fragment k d ((j, e) ∷ rest) = if j == k then (k, d) ∷ rest else (j, e) ∷ set_fragment k d rest

unfoldable pub delete_fragment : ℕ → List (ℕ × Bytes) → List (ℕ × Bytes)
delete_fragment k [] = []
delete_fragment k ((j, e) ∷ rest) =
    let more = delete_fragment k rest in if j == k then more else (j, e) ∷ more

unfoldable pub is_start : ℕ → Bool
is_start pseq = pseq / 2 ^ 7 % 2 == 0

unfoldable pub is_end : ℕ → Bool
is_end pseq = pseq / 2 ^ 7 % 2 == 1

-- `copy(dst, src)`.
unfoldable pub copy : Bytes → Bytes → Bytes
copy dst src = take (length dst) src ++ drop (length src) dst

-- The cache of the sensor is there; the completed SDU is sent as a copy into the frame.
unfoldable pub finalize : Text → Frame → Gateway → Outcome Gateway
unfolding copy
finalize key frame g = elim (lookup key g.caches) [
  | none ↦ panicked
  | some cache ↦ done (record g {
    caches = delete key g.caches;
    sdus = g.sdus ++ record frame { payload = copy frame.payload cache.buffer } ∷ [];
  })
]

abbrev pub put_cache : Text → SduCache → Gateway → Gateway
put_cache key cache g = record g { caches = insert key cache g.caches }

-- The branch for a sensor with no cache.
unfoldable pub first_fragment : Text → Frame → ℕ → ℕ → Bytes → Gateway → Outcome Gateway
unfolding is_start is_end
first_fragment key frame sseq pseq contents g =
    let cache : SduCache = record {
      sseq = sseq;
      expected = (pseq + 1) % 2 ^ 8;
      final_pseq = 0;
      buffer = contents;
      out_of_order = [];
      timer_pseq = pseq;
    } in
    let last = record cache { final_pseq = pseq } in
    if is_start pseq
    then if is_end pseq
      then finalize key frame (put_cache key last (send_ack key sseq true pseq g))
      else done (put_cache key cache (send_ack key sseq true pseq g))
    else done (send_ack key sseq false pseq g)

-- The loop that takes over the fragments that have become due. Each round removes one.
unfoldable pub merge : ℕ → SduCache → Outcome SduCache
merge zero cache = stuck
merge (suc fuel) cache = elim (fragment cache.expected cache.out_of_order) [
  | none ↦ done cache
  | some d ↦ merge fuel (record cache {
    out_of_order = delete_fragment cache.expected cache.out_of_order;
    buffer = cache.buffer ++ d;
    expected = (cache.expected + 1) % 2 ^ 8;
  })
]

abbrev pub note_end : ℕ → SduCache → SduCache
note_end pseq cache = if is_end pseq then record cache { final_pseq = pseq } else cache

-- The cache after the fragment that was due; one round for each early fragment, and the last test.
unfoldable pub accept_due : ℕ → Bytes → SduCache → Outcome SduCache
unfolding merge
accept_due pseq contents cache =
    let appended = record cache {
      buffer = cache.buffer ++ contents;
      expected = (cache.expected + 1) % 2 ^ 8;
    } in
    merge (suc (length cache.out_of_order)) (note_end pseq appended)

-- The switch for a fragment of the SDU that is being collected.
unfoldable pub same_sdu : Text → Frame → SduCache → ℕ → Bytes → Gateway → Outcome Gateway
unfolding accept_due finalize is_end
same_sdu key frame cache pseq contents g =
    let acked = send_ack key cache.sseq true pseq g in
    let early =
      note_end pseq
        (record cache { out_of_order = set_fragment pseq contents cache.out_of_order }) in
    if ltb pseq cache.expected
    then done acked
    else if ltb cache.expected pseq
    then done (put_cache key early acked)
    else accept_due pseq contents cache >>= λ next.
        if not (next.final_pseq == 0) && ltb next.final_pseq next.expected
        then finalize key frame (put_cache key next acked)
        else done (put_cache key next acked)

-- By the cache of the sensor. A fragment of another SDU that can start one drops the cache and is
-- processed again, now with no cache there.
unfoldable pub place_fragment : Text → Frame → ℕ → ℕ → Bytes → Gateway → Outcome Gateway
unfolding first_fragment same_sdu
place_fragment key frame sseq pseq contents g = elim (lookup key g.caches) [
  | none ↦ first_fragment key frame sseq pseq contents g
  | some cache ↦
      if cache.sseq == sseq
      then same_sdu key frame cache pseq contents g
      else if is_start pseq
      then first_fragment key frame sseq pseq contents (record g { caches = delete key g.caches })
      else done (send_ack key sseq false pseq g)
]

-- The body of a fragment, once the header of four bytes is there.
unfoldable pub read_fragment : Frame → ℕ → ℕ → Gateway → Outcome Gateway
unfolding place_fragment
read_fragment frame sseq pseq g = uint16_at uint16_le frame.payload [] 2 >>= λ size.
    if ltb (length frame.payload) (4 + size)
    then done (send_ack frame.sensor_id sseq false pseq g)
    else slice frame.payload [] 4 (4 + size) >>= λ contents.
        place_fragment frame.sensor_id frame sseq pseq contents g

unfoldable pub process_frame : Frame → Gateway → Outcome Gateway
unfolding read_fragment
process_frame frame g = uint16_at uint16_be frame.payload [] 0 >>= λ two.
    let sseq = two / 2 ^ 10 % 2 ^ 8 in
    let acked = send_ack frame.sensor_id sseq true 0 g in
    if frame.frag_ind == 0
    then done (record acked { sdus = acked.sdus ++ frame ∷ [] })
    else if ltb (length frame.payload) 4
    then done (send_ack frame.sensor_id sseq false 0 g)
    else read_fragment frame sseq (two / 2 % 2 ^ 7) g

-- The callback of the timer of a cache, 20 seconds after its first fragment.
unfoldable pub reassemble_timeout : Text → Gateway → Gateway
reassemble_timeout key g = elim (lookup key g.caches) [
  | none ↦ g
  | some cache ↦
      send_ack key cache.sseq false cache.timer_pseq (record g { caches = delete key g.caches })
]
