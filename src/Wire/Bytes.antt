-- ===== src/Wire/Bytes.antt =====
-- Big-endian reads and writes of a byte slice, as package encoding/binary does them, with the
-- panic of an index out of range. A write gives the slice after it.
pub mod Total
use mac_homa.Common.{ℕ, zero, suc, ◌+◌, ◌*◌, ◌/◌, ◌%◌, ◌^◌, List, [], ◌∷◌}
use mac_homa.Wire.{Result, ok, panic, ◌>>=◌, Three}

-- b[i]
unfoldable pub byte_at : List ℕ → ℕ → Result ℕ
byte_at [] i = panic
byte_at (x ∷ xs) zero = ok x
byte_at (x ∷ xs) (suc i) = byte_at xs i

unfoldable pub be_u16 : ℕ → ℕ → ℕ
be_u16 a b = a * 256 + b

unfoldable pub be_u32 : ℕ → ℕ → ℕ → ℕ → ℕ
be_u32 a b c d = ((a * 256 + b) * 256 + c) * 256 + d

-- The high and the low half of a uint64.
unfoldable pub be_u64 : ℕ → ℕ → ℕ
be_u64 high low = high * 2 ^ 32 + low

-- binary.BigEndian.Uint16(b[i:i+2])
unfoldable pub read_u16 : List ℕ → ℕ → Result ℕ
read_u16 b i = do x ← byte_at b i; y ← byte_at b (i + 1); ok (be_u16 x y)

-- binary.BigEndian.Uint32(b[i:i+4])
unfoldable pub read_u32 : List ℕ → ℕ → Result ℕ
read_u32 b i = do
  x ← byte_at b i
  y ← byte_at b (i + 1)
  z ← byte_at b (i + 2)
  w ← byte_at b (i + 3)
  ok (be_u32 x y z w)

-- binary.BigEndian.Uint64(b[i:i+8])
unfoldable pub read_u64 : List ℕ → ℕ → Result ℕ
read_u64 b i = do high ← read_u32 b i; low ← read_u32 b (i + 4); ok (be_u64 high low)

-- b[i], b[i+1], b[i+2] as a `[3]byte`
unfoldable pub read_three : List ℕ → ℕ → Result Three
read_three b i = do
  x ← byte_at b i
  y ← byte_at b (i + 1)
  z ← byte_at b (i + 2)
  ok (record { first = x; second = y; third = z })

-- b[i] = v
unfoldable pub put_byte : ℕ → ℕ → List ℕ → Result (List ℕ)
put_byte i v [] = panic
put_byte zero v (x ∷ xs) = ok (v ∷ xs)
put_byte (suc i) v (x ∷ xs) = do rest ← put_byte i v xs; ok (x ∷ rest)

-- binary.BigEndian.PutUint16(b[i:i+2], v)
unfoldable pub put_u16 : ℕ → ℕ → List ℕ → Result (List ℕ)
put_u16 i v b = do b ← put_byte i (v / 256 % 256) b; put_byte (i + 1) (v % 256) b

-- binary.BigEndian.PutUint32(b[i:i+4], v)
unfoldable pub put_u32 : ℕ → ℕ → List ℕ → Result (List ℕ)
put_u32 i v b = do
  b ← put_byte i (v / 2 ^ 24 % 256) b
  b ← put_byte (i + 1) (v / 2 ^ 16 % 256) b
  b ← put_byte (i + 2) (v / 256 % 256) b
  put_byte (i + 3) (v % 256) b

-- binary.BigEndian.PutUint64(b[i:i+8], v)
unfoldable pub put_u64 : ℕ → ℕ → List ℕ → Result (List ℕ)
put_u64 i v b = do b ← put_u32 i (v / 2 ^ 32) b; put_u32 (i + 4) (v % 2 ^ 32) b

-- copy(b[i:i+3], v[:])
unfoldable pub put_three : ℕ → Three → List ℕ → Result (List ℕ)
put_three i v b = do
  b ← put_byte i v.first b
  b ← put_byte (i + 1) v.second b
  put_byte (i + 2) v.third b

-- copy(b, source): as many bytes as the shorter of the two has.
unfoldable pub copy : List ℕ → List ℕ → List ℕ
copy [] source = []
copy (x ∷ b) [] = x ∷ b
copy (x ∷ b) (y ∷ source) = y ∷ copy b source

-- copy(b[i:], source): the slice panics when i is beyond the end.
unfoldable pub copy_at : ℕ → List ℕ → List ℕ → Result (List ℕ)
copy_at zero source b = ok (copy b source)
copy_at (suc i) source [] = panic
copy_at (suc i) source (x ∷ b) = do rest ← copy_at i source b; ok (x ∷ rest)

-- b[i:]
unfoldable pub slice_from : List ℕ → ℕ → Result (List ℕ)
slice_from b zero = ok b
slice_from [] (suc i) = panic
slice_from (x ∷ b) (suc i) = slice_from b i
