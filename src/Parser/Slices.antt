-- ===== src/Parser/Slices.antt =====
-- Reading a Go slice by index. A slice has bytes up to its length, and `spare` holds the bytes of
-- its array between its length and its capacity, which a slice expression may reach.
pub mod Reads
use device_wiresink_go.Prelude.{
  ℕ, zero, suc, ◌+◌, ◌-◌, ◌*◌, ◌^◌, ◌++◌, ◌&&◌, none, some, leb, if◌then◌else◌, length, get_elem?,
  get_or, take, drop, Bytes, bit_or,
}
use device_wiresink_go.Prelude.Outcome.{Outcome, done, panicked, ◌>>=◌}

-- `s[i]`.
unfoldable pub byte_at : Bytes → ℕ → Outcome ℕ
byte_at s i = elim (get_elem? s i) [ none ↦ panicked | some b ↦ done b ]

-- `s[lo:hi]`.
unfoldable pub slice : Bytes → Bytes → ℕ → ℕ → Outcome Bytes
slice s spare lo hi =
    if leb lo hi && leb hi (length s + length spare)
    then done (take (hi - lo) (drop lo (s ++ spare)))
    else panicked

-- `binary.LittleEndian.Uint16` or `binary.BigEndian.Uint16` of `s[i:i+2]`.
unfoldable pub uint16_at : (ℕ → ℕ → ℕ) → Bytes → Bytes → ℕ → Outcome ℕ
unfolding slice
uint16_at order s spare i = do
  two ← slice s spare i (i + 2)
  done (order (get_or two 0 0) (get_or two 1 0))

-- The switch on the length flag: the number of bytes of the value, and the index behind the length
-- field. `order` is the byte order that the loop uses for a length of two bytes.
unfoldable pub data_len_at : (ℕ → ℕ → ℕ) → Bytes → Bytes → ℕ → ℕ → Outcome (ℕ × ℕ)
unfolding byte_at uint16_at
data_len_at order s spare zero i = done (4, i)
data_len_at order s spare (suc zero) i = do n ← byte_at s i; done (n, i + 1)
data_len_at order s spare (suc (suc zero)) i = do n ← uint16_at order s spare i; done (n, i + 2)
data_len_at order s spare (suc (suc (suc flag))) i = do
  high ← byte_at s i
  middle ← byte_at s (i + 1)
  low ← byte_at s (i + 2)
  done (bit_or (bit_or (high * 2 ^ 16) (middle * 2 ^ 8)) low, i + 3)
