-- ===== src/Parser/Sharding/Merged.antt =====
-- The loop of `ProcessFrame` of internal/frameparser/sharding.go that takes over early fragments ends.
use device_wiresink_go.Prelude.{
  ℕ, zero, suc, ◌+◌, ◌%◌, ◌^◌, ◌==◌, ◌≤◌, ◌<◌, ◌≡◌, refl, arith, List, [], ◌∷◌, ◌++◌, none, some,
  Option-cases, Bool-cases, inl, inr, length, Bytes,
}
use device_wiresink_go.Prelude.Outcome.{Outcome, done}
use device_wiresink_go.State.{SduCache}
use device_wiresink_go.Parser.Sharding.{fragment, delete_fragment, merge, note_end, accept_due}

length-delete_fragment_le : (k : ℕ) (l : List (ℕ × Bytes)) → length (delete_fragment k l) ≤ length l
unfolding delete_fragment
length-delete_fragment_le k [] = omega arith
length-delete_fragment_le k ((j, e) ∷ rest) = ground (arith, length-delete_fragment_le k rest)

length-delete_fragment :
    (k : ℕ) (l : List (ℕ × Bytes)) (d : Bytes)
    → fragment k l ≡ some d
    → length (delete_fragment k l) < length l
unfolding fragment delete_fragment
length-delete_fragment k [] d e = cc
length-delete_fragment k ((j, f) ∷ rest) d e = elim (Bool-cases (j == k)) [
  | inl same ↦ ground (arith, length-delete_fragment_le k rest)
  | inr other ↦ ground (arith, length-delete_fragment k rest d)
]

-- It ends with a cache for which no fragment is due, which has noted the same last fragment.
abbrev pub Merged : SduCache → Outcome SduCache → Type 0
Merged cache o =
    (next : SduCache) × (o ≡ done next)
    × (fragment next.expected next.out_of_order ≡ none)
    × (next.final_pseq ≡ cache.final_pseq)

pub merge-Merged :
    (fuel : ℕ) (cache : SduCache)
    → length cache.out_of_order < fuel
    → Merged cache (merge fuel cache)
unfolding merge
merge-Merged zero cache h = absurd (omega arith)
merge-Merged (suc fuel) cache h = elim (Option-cases (fragment cache.expected cache.out_of_order)) [
  | inl ends ↦ (cache, rw (merge, ends) refl, ends, refl)
  | inr (d, due) ↦
      let shorter = length-delete_fragment cache.expected cache.out_of_order d due in
      rw (merge, due)
        (merge-Merged fuel
          (record cache {
            out_of_order = delete_fragment cache.expected cache.out_of_order;
            buffer = cache.buffer ++ d;
            expected = (cache.expected + 1) % 2 ^ 8;
          })
          (omega arith))
]

length-note_end :
    (pseq : ℕ) (cache : SduCache)
    → length (note_end pseq cache).out_of_order ≡ length cache.out_of_order
length-note_end pseq cache = ground arith

-- The fragment that was due is taken over with all early ones that follow it.
pub accept_due-ends :
    (pseq : ℕ) (contents : Bytes) (cache : SduCache)
    → (next : SduCache) × (accept_due pseq contents cache ≡ done next)
      × (fragment next.expected next.out_of_order ≡ none)
unfolding accept_due
accept_due-ends pseq contents cache =
    let appended : SduCache = record cache {
      buffer = cache.buffer ++ contents;
      expected = (cache.expected + 1) % 2 ^ 8;
    } in
    let (next, ends, waits, kept) =
      merge-Merged (suc (length cache.out_of_order)) (note_end pseq appended)
        (omega (arith, length-note_end pseq appended)) in
    (next, ends, waits)
