-- ===== src/Wire/Kinds/Varint.antt =====
-- The length prefixes of pkg/protorun/wirecodec.go, written with binary.AppendUvarint and read with
-- binary.Uvarint.
use protorun.Prelude.{ℕ, zero, suc, ◌*◌, ◌/◌, ◌^◌, ◌<◌, ◌≤◌, ◌≡◌, ◌++◌, some, length, arith}
use protorun.Wire.{Bytes}
use protorun.Wire.Kinds.{append_uvarint, uvarint, write_count}

-- The bound of a number in some rounds of seven bits and one bit.
abbrev limit : ℕ → ℕ
limit zero = 2
limit (suc rounds) = 128 * limit rounds

uvarint-append_uvarint :
    (rounds n : ℕ) (rest : Bytes)
    → n < limit rounds
    → uvarint rounds (append_uvarint rounds n ++ rest) ≡ some (n, rest)
unfolding uvarint append_uvarint
uvarint-append_uvarint zero n rest h = ground arith
uvarint-append_uvarint (suc rounds) n rest h =
    let e : n < 128 * limit rounds = h in
    ground (arith, uvarint-append_uvarint rounds (n / 128) rest (omega arith))

pub uvarint-write_count :
    (n : ℕ) (rest : Bytes) → n < 2 ^ 64 → uvarint 9 (write_count n ++ rest) ≡ some (n, rest)
uvarint-write_count n rest h = uvarint-append_uvarint 9 n rest (omega arith)

pub write_count-positive : (rounds n : ℕ) → 1 ≤ length (append_uvarint rounds n)
unfolding append_uvarint
write_count-positive zero n = omega arith
write_count-positive (suc rounds) n = ground arith
