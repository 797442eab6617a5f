-- ===== src/Transport/Tcp.antt =====
-- pkg/transport/tcp.go: the frames on a TCP stream, and the layer's connections in Tcp/Layer.antt. The
-- network, TLS and the goroutines are not modelled: what a dial, a write or a read gives is an input.
pub mod Framing
pub mod Layer
use protorun.Prelude.{
  ℕ, zero, suc, ◌+◌, ◌*◌, ◌/◌, ◌%◌, ◌^◌, Bool, true, false, List, [], ◌∷◌, ◌++◌, length, take, drop,
  ltb, if◌then◌else◌, Result, ok, err, too_long,
}
use protorun.Wire.{Bytes}

abbrev pub max_frame_size : ℕ
max_frame_size = 16777216

-- `PutUint32` and `Uint32` of `binary.BigEndian`.
unfoldable pub put_uint32 : ℕ → Bytes
put_uint32 v = (v / 16777216 % 256) ∷ (v / 65536 % 256) ∷ (v / 256 % 256) ∷ (v % 256) ∷ []

unfoldable pub uint32 : Bytes → ℕ
uint32 (a ∷ b ∷ c ∷ d ∷ _) = 16777216 * a + 65536 * b + 256 * c + d
uint32 _ = 0

unfoldable pub encode_frame : Bytes → Result Bytes
encode_frame payload =
    if ltb 0xFFFFFFFF (length payload)
    then err too_long
    else ok (put_uint32 (length payload % 2 ^ 32) ++ payload)

-- What one round of the loop of `decodeFrames` finds at the front of the buffer.
pub data Next : Type 0 where
  incomplete : Next
  oversized : ℕ → Next
  complete : (payload rest : Bytes) → Next

unfoldable pub next_frame : Bytes → Next
unfolding uint32
next_frame buf =
    let n = uint32 (take 4 buf) in
    if ltb (length buf) 4
    then Next.incomplete
    else if ltb max_frame_size n
    then Next.oversized n
    else if ltb (length buf) ((4 + n) % 2 ^ 32)
    then Next.incomplete
    else Next.complete (take n (drop 4 buf)) (drop n (drop 4 buf))

-- The frames and what stays in the buffer, or the length that is refused: then no frame is returned.
pub data Decoded : Type 0 where
  decoded : (frames : List Bytes) → (rest : Bytes) → Decoded
  too_large : ℕ → Decoded

unfoldable pub prepend : List Bytes → Decoded → Decoded
prepend frames (Decoded.decoded more rest) = Decoded.decoded (frames ++ more) rest
prepend frames (Decoded.too_large n) = Decoded.too_large n

unfoldable pub continue_with : (Bytes → Decoded) → Next → Bytes → Decoded
unfolding prepend
continue_with again Next.incomplete buf = Decoded.decoded [] buf
continue_with again (Next.oversized n) buf = Decoded.too_large n
continue_with again (Next.complete payload rest) buf = prepend (payload ∷ []) (again rest)

-- A round takes four bytes at least, so as many rounds as there are bytes are enough.
unfoldable pub decode_rounds : ℕ → Bytes → Decoded
unfolding next_frame continue_with
decode_rounds zero buf = Decoded.decoded [] buf
decode_rounds (suc rounds) buf = continue_with (decode_rounds rounds) (next_frame buf) buf

unfoldable pub decode_frames : Bytes → Decoded
unfolding decode_rounds
decode_frames buf = decode_rounds (length buf) buf

-- The frames of the reads of one connection, whose chunks `readFrames` adds to the buffer.
unfoldable pub read_more : (Bytes → Decoded) → Decoded → Decoded
unfolding prepend
read_more next (Decoded.decoded frames rest) = prepend frames (next rest)
read_more next (Decoded.too_large n) = Decoded.too_large n

unfoldable pub read_chunks : List Bytes → Bytes → Decoded
unfolding decode_frames read_more
read_chunks [] buf = Decoded.decoded [] buf
read_chunks (chunk ∷ chunks) buf = read_more (read_chunks chunks) (decode_frames (buf ++ chunk))
