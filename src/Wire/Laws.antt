-- ===== src/Wire/Laws.antt =====
-- What the readers give on the bytes of the writers, with any bytes behind them.
use native.Mathlib.Nat.{pow-suc}
use protorun.Prelude.{
  ℕ, zero, suc, ◌/◌, ◌%◌, ◌^◌, ◌<◌, ◌≡◌, refl, ap, Bool, true, false, [], ◌∷◌, ◌++◌, append_assoc,
  length, ◌==◌, if◌then◌else◌, ok, err, eof, unexpected_eof, arith, take-append_length,
  drop-append_length, length-append, le→leb, ◌⊎◌, take-append-drop, length-take,
}
use protorun.Wire.{
  Bytes, read_full, le_encode, le_decode, read_uint, write_uint16, read_uint16, write_uint32,
  read_uint32, write_uint64, read_uint64, write_bytes, read_bytes, bool_byte, read_byte, is_set,
}

pub length-le_encode : (w v : ℕ) → length (le_encode w v) ≡ w
unfolding le_encode
length-le_encode zero v = refl
length-le_encode (suc w) v = ap suc (length-le_encode w (v / 256))

pub le_decode-le_encode : (w v : ℕ) → v < 256 ^ w → le_decode (le_encode w v) ≡ v
unfolding le_encode le_decode
le_decode-le_encode zero v h = omega arith
le_decode-le_encode (suc w) v h =
    omega (arith, le_decode-le_encode w (v / 256) (omega (arith, pow-suc 256 w)))

pub read_full-append : (b rest : Bytes) → read_full (length b) (b ++ rest) ≡ ok (b, rest)
unfolding read_full
read_full-append b rest = rw (
  le→leb (length b) (length (b ++ rest)) (omega (arith, length-append b rest)),
  take-append_length b rest,
  drop-append_length b rest,
)

read_full_of_length :
    (n : ℕ) (b rest : Bytes) → length b ≡ n → read_full n (b ++ rest) ≡ ok (b, rest)
read_full_of_length n b rest e = rw (← e) (read_full-append b rest)

pub read_uint-append :
    (w v : ℕ) (rest : Bytes) → v < 256 ^ w → read_uint w (le_encode w v ++ rest) ≡ ok (v, rest)
unfolding read_uint
read_uint-append w v rest h =
    rw
      (read_full_of_length w (le_encode w v) rest (length-le_encode w v), le_decode-le_encode w v h)

pub read_uint16-write :
    (v : ℕ) (rest : Bytes) → v < 2 ^ 16 → read_uint16 (write_uint16 v ++ rest) ≡ ok (v, rest)
unfolding read_uint16 write_uint16
read_uint16-write v rest h = read_uint-append 2 v rest (omega arith)

pub read_uint32-write :
    (v : ℕ) (rest : Bytes) → v < 2 ^ 32 → read_uint32 (write_uint32 v ++ rest) ≡ ok (v, rest)
unfolding read_uint32 write_uint32
read_uint32-write v rest h = read_uint-append 4 v rest (omega arith)

pub read_uint64-write :
    (v : ℕ) (rest : Bytes) → v < 2 ^ 64 → read_uint64 (write_uint64 v ++ rest) ≡ ok (v, rest)
unfolding read_uint64 write_uint64
read_uint64-write v rest h = read_uint-append 8 v rest (omega arith)

write_bytes-eq : (b : Bytes) → length b < 2 ^ 32 → write_bytes b ≡ write_uint32 (length b) ++ b
unfolding write_bytes
write_bytes-eq [] h = refl
write_bytes-eq (x ∷ b) h =
    let e : length (x ∷ b) % 2 ^ 32 ≡ suc (length b) = omega arith in rw e (ground arith)

-- A byte slice shorter than 2 ^ 32 is read back whole, and the reader stops behind it.
pub read_bytes-write :
    (b rest : Bytes) → length b < 2 ^ 32 → read_bytes (write_bytes b ++ rest) ≡ ok (b, rest)
unfolding read_bytes
read_bytes-write b rest h =
    rw
      (
        write_bytes-eq b h,
        append_assoc (write_uint32 (length b)) b rest,
        read_uint32-write (length b) (b ++ rest) h,
      )
      (read_body b)
  where
    read_body :
        (b : Bytes)
        → (if length b == 0 then ok ([], b ++ rest) else read_full (length b) (b ++ rest))
          ≡ ok (b, rest)
    read_body [] = refl
    read_body (x ∷ b) = ground (arith, read_full-append (x ∷ b) rest)

pub read_byte-bool :
    (v : Bool) (rest : Bytes) → read_byte (bool_byte v ∷ rest) ≡ ok (bool_byte v, rest)
unfolding read_byte
read_byte-bool v rest = refl

pub is_set-bool_byte : (v : Bool) → is_set (bool_byte v) ≡ v
unfolding bool_byte
is_set-bool_byte true = refl
is_set-bool_byte false = refl

-- A reader's success leaves a suffix: it consumed exactly the bytes that it returns.
pub read_full-eq-ok :
    (n : ℕ) (r b rest : Bytes) → read_full n r ≡ ok (b, rest) → (r ≡ b ++ rest) × (length b ≡ n)
unfolding read_full
read_full-eq-ok n r b rest h = ground (arith, take-append-drop n r, length-take n r)

-- Too few bytes: an error, never a short value.
pub read_full_short :
    (n : ℕ) (r : Bytes)
    → length r < n
    → (read_full n r ≡ err eof) ⊎ (read_full n r ≡ err unexpected_eof)
unfolding read_full
read_full_short n r h = ground arith

-- The same in the middle of a message, as the codecs of the protocols meet them.
pub read_uint64-write_append :
    (v : ℕ) (tail rest : Bytes)
    → v < 2 ^ 64
    → read_uint64 ((write_uint64 v ++ tail) ++ rest) ≡ ok (v, tail ++ rest)
read_uint64-write_append v tail rest h =
    rw (append_assoc (write_uint64 v) tail rest) (read_uint64-write v (tail ++ rest) h)

pub read_bytes-write_append :
    (b tail rest : Bytes)
    → length b < 2 ^ 32
    → read_bytes ((write_bytes b ++ tail) ++ rest) ≡ ok (b, tail ++ rest)
read_bytes-write_append b tail rest h =
    rw (append_assoc (write_bytes b) tail rest) (read_bytes-write b (tail ++ rest) h)
