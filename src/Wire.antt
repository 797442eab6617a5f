-- ===== src/Wire.antt =====
-- pkg/wire/wire.go: little-endian integers and length-prefixed byte slices. A buffer that is
-- written is the list of its bytes; a reader is a function from the bytes left to a value and the
-- bytes that stay. A write to a `bytes.Buffer` never fails, so the writers return bytes. Nil and
-- empty slices are one value here.
pub mod Laws
pub mod Kinds
mod Tests
use protorun.Prelude.{
  ℕ, zero, suc, ◌+◌, ◌*◌, ◌/◌, ◌%◌, ◌^◌, Bool, true, false, List, [], ◌∷◌, ◌++◌, ◌≤◌, length, take,
  drop, leb, ◌==◌, if◌then◌else◌, Result, ok, err, eof, unexpected_eof, ◌>>=◌, not,
}

abbrev pub Bytes : Type 0
Bytes = List ℕ

abbrev pub Reader : Type 0 → Type 0
Reader A = Bytes → Result (A × Bytes)

-- `io.ReadFull` into a buffer of `n` bytes.
unfoldable pub read_full : ℕ → Reader Bytes
read_full n r =
    if leb n (length r)
    then ok (take n r, drop n r)
    else if length r == 0
    then err eof
    else err unexpected_eof

-- The `w` bytes of an unsigned integer, least significant first, and their value.
unfoldable pub le_encode : ℕ → ℕ → Bytes
le_encode zero v = []
le_encode (suc w) v = (v % 256) ∷ le_encode w (v / 256)

unfoldable pub le_decode : Bytes → ℕ
le_decode [] = 0
le_decode (b ∷ bs) = b + 256 * le_decode bs

pub read_uint : ℕ → Reader ℕ
read_uint w r = do (bs, rest) ← read_full w r; ok (le_decode bs, rest)

unfoldable pub write_uint16 : ℕ → Bytes
write_uint16 v = le_encode 2 v

unfoldable pub read_uint16 : Reader ℕ
read_uint16 = read_uint 2

unfoldable pub write_uint32 : ℕ → Bytes
write_uint32 v = le_encode 4 v

unfoldable pub read_uint32 : Reader ℕ
read_uint32 = read_uint 4

unfoldable pub write_uint64 : ℕ → Bytes
write_uint64 v = le_encode 8 v

unfoldable pub read_uint64 : Reader ℕ
read_uint64 = read_uint 8

-- The conversion `uint32(len(b))` keeps the length modulo 2 ^ 32.
unfoldable pub write_bytes : Bytes → Bytes
write_bytes b = write_uint32 (length b % 2 ^ 32) ++ (if length b == 0 then [] else b)

unfoldable pub read_bytes : Reader Bytes
read_bytes r = do (n, rest) ← read_uint32 r; if n == 0 then ok ([], rest) else read_full n rest

unfoldable pub write_string : Bytes → Bytes
write_string s = write_bytes s

unfoldable pub read_string : Reader Bytes
read_string r = do (b, rest) ← read_bytes r; ok (b, rest)

-- `Buffer.WriteByte` of the `boolByte` of the message files, and `Reader.ReadByte`.
unfoldable pub bool_byte : Bool → ℕ
bool_byte v = if v then 1 else 0

unfoldable pub read_byte : Reader ℕ
read_byte [] = err eof
read_byte (b ∷ r) = ok (b, r)

-- `b != 0`
abbrev pub is_set : ℕ → Bool
is_set b = not (b == 0)
