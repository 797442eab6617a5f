-- ===== src/Transport/Tcp/Framing.antt =====
-- The loop of `decodeFrames` of pkg/transport/tcp.go: enough rounds, and more bytes at the end.
pub mod Streams
use protorun.Prelude.{
  ℕ, zero, suc, ◌+◌, ◌*◌, ◌/◌, ◌%◌, ◌^◌, ◌≤◌, ◌<◌, ◌≡◌, refl, ap, sym, subst, ◌∙◌, Bool, true,
  false, List, [], ◌∷◌, ◌++◌, append_assoc, append-nil, length, length-append, length-drop,
  length-take, take, drop, take-append_of_le, take-append_length, drop-append_length, ltb,
  if◌then◌else◌, if_elim, Result, ok, err, too_long, ◌>>=◌, arith, All, ◌-◌,
}
use protorun.Wire.{Bytes}
use protorun.Transport.Tcp.{
  max_frame_size, put_uint32, uint32, encode_frame, Next, next_frame, Decoded, prepend,
  continue_with, decode_rounds, decode_frames, read_more, read_chunks,
}

drop-append_of_le : (n : ℕ) (xs ys : Bytes) → n ≤ length xs → drop n (xs ++ ys) ≡ drop n xs ++ ys
drop-append_of_le zero xs ys h = refl
drop-append_of_le (suc n) [] ys h = absurd (omega arith)
drop-append_of_le (suc n) (x ∷ xs) ys h = drop-append_of_le n xs ys (omega arith)

-- What a frame at the front of the buffer is, as conditions.
next_frame-complete :
    (buf payload rest : Bytes)
    → next_frame buf ≡ Next.complete payload rest
    → let n = uint32 (take 4 buf) in
      (4 + n ≤ length buf)
      × (n ≤ max_frame_size)
      × (payload ≡ take n (drop 4 buf))
      × (rest ≡ drop n (drop 4 buf))
unfolding next_frame
next_frame-complete buf payload rest h = (ground arith, ground arith, ground arith, ground arith)

next_frame-oversized :
    (buf ys : Bytes) (n : ℕ)
    → next_frame buf ≡ Next.oversized n
    → next_frame (buf ++ ys) ≡ Next.oversized n
unfolding next_frame
next_frame-oversized buf ys n h = ground (arith, length-append buf ys, take-append_of_le 4 buf ys)

next_frame-append :
    (buf ys payload rest : Bytes)
    → next_frame buf ≡ Next.complete payload rest
    → next_frame (buf ++ ys) ≡ Next.complete payload (rest ++ ys)
unfolding next_frame
next_frame-append buf ys payload rest h =
    let (a, b, c, d) = next_frame-complete buf payload rest h in
    let n : ℕ = uint32 (take 4 buf) in
    let e : take 4 (buf ++ ys) ≡ take 4 buf = take-append_of_le 4 buf ys (omega arith) in
    let f : drop 4 (buf ++ ys) ≡ drop 4 buf ++ ys = drop-append_of_le 4 buf ys (omega arith) in
    let m : n ≤ length (drop 4 buf) = omega (arith, length-drop 4 buf) in
    let g = take-append_of_le n (drop 4 buf) ys m in
    let i = drop-append_of_le n (drop 4 buf) ys m in ground (arith, length-append buf ys)

-- How much a frame takes off the buffer.
pub next_frame-shorter :
    (buf payload rest : Bytes)
    → next_frame buf ≡ Next.complete payload rest
    → length rest < length buf
next_frame-shorter buf payload rest h =
    let (a, b, c, d) = next_frame-complete buf payload rest h in
    let n : ℕ = uint32 (take 4 buf) in
    let e : length rest ≡ length buf - 4 - n =
      ap length d ∙ (length-drop n (drop 4 buf) ∙ ap (λ m. m - n) (length-drop 4 buf)) in
    omega arith

pub decode_rounds-nil : (k : ℕ) → decode_rounds k [] ≡ Decoded.decoded [] []
unfolding decode_rounds next_frame
decode_rounds-nil zero = refl
decode_rounds-nil (suc k) = refl

continue_with-cong :
    (f g : Bytes → Decoded) (next : Next) (buf : Bytes)
    → ((payload rest : Bytes) → next ≡ Next.complete payload rest → f rest ≡ g rest)
    → continue_with f next buf ≡ continue_with g next buf
unfolding continue_with
continue_with-cong f g Next.incomplete buf h = refl
continue_with-cong f g (Next.oversized n) buf h = refl
continue_with-cong f g (Next.complete payload rest) buf h =
    ap (prepend (payload ∷ [])) (h payload rest refl)

-- Any number of rounds that is no smaller than the buffer gives the same.
decode_rounds-enough :
    (k j : ℕ) (buf : Bytes)
    → length buf ≤ k
    → length buf ≤ j
    → decode_rounds k buf ≡ decode_rounds j buf
unfolding decode_rounds
decode_rounds-enough k j [] p q = decode_rounds-nil k ∙ sym (decode_rounds-nil j)
decode_rounds-enough zero j (b ∷ buf) p q = absurd (omega arith)
decode_rounds-enough (suc k) zero (b ∷ buf) p q = absurd (omega arith)
decode_rounds-enough (suc k) (suc j) (b ∷ buf) p q =
    continue_with-cong (decode_rounds k) (decode_rounds j) (next_frame (b ∷ buf)) (b ∷ buf)
      λ payload rest e.
        let shorter = next_frame-shorter (b ∷ buf) payload rest e in
        decode_rounds-enough k j rest (omega arith) (omega arith)

-- One round of the loop.
pub decode_frames-next :
    (buf : Bytes) → decode_frames buf ≡ continue_with decode_frames (next_frame buf) buf
unfolding decode_frames decode_rounds
decode_frames-next buf =
    decode_rounds-enough (length buf) (suc (length buf)) buf (omega arith) (omega arith)
    ∙ continue_with-cong (decode_rounds (length buf)) decode_frames (next_frame buf) buf
        λ payload rest e.
          let shorter = next_frame-shorter buf payload rest e in
          decode_rounds-enough (length buf) (length rest) rest (omega arith) (omega arith)

prepend-nil : (d : Decoded) → prepend [] d ≡ d
unfolding prepend
prepend-nil (Decoded.decoded frames rest) = refl
prepend-nil (Decoded.too_large n) = refl

prepend-append :
    (xs ys : List Bytes) (d : Decoded) → prepend xs (prepend ys d) ≡ prepend (xs ++ ys) d
unfolding prepend
prepend-append xs ys (Decoded.decoded frames rest) =
    ap (λ f. Decoded.decoded f rest) (sym (append_assoc xs ys frames))
prepend-append xs ys (Decoded.too_large n) = refl

read_more-prepend :
    (f : Bytes → Decoded) (xs : List Bytes) (d : Decoded)
    → read_more f (prepend xs d) ≡ prepend xs (read_more f d)
unfolding read_more
read_more-prepend f xs (Decoded.decoded frames rest) = sym (prepend-append xs frames (f rest))
read_more-prepend f xs (Decoded.too_large n) = refl

-- One round with more bytes at the end.
continue_with-append :
    (buf ys : Bytes) (next : Next)
    → next_frame buf ≡ next
    → ((payload rest : Bytes)
        → next ≡ Next.complete payload rest
        → decode_frames (rest ++ ys)
          ≡ read_more (λ r. decode_frames (r ++ ys)) (decode_frames rest))
    → decode_frames (buf ++ ys)
      ≡ read_more (λ r. decode_frames (r ++ ys)) (continue_with decode_frames next buf)
unfolding read_more continue_with
continue_with-append buf ys Next.incomplete e h = sym (prepend-nil (decode_frames (buf ++ ys)))
continue_with-append buf ys (Next.oversized n) e h =
    decode_frames-next (buf ++ ys) ∙ rw (next_frame-oversized buf ys n e) refl
continue_with-append buf ys (Next.complete payload rest) e h =
    decode_frames-next (buf ++ ys)
    ∙ (rw (next_frame-append buf ys payload rest e, h payload rest refl)
        (sym
          (read_more-prepend (λ r. decode_frames (r ++ ys)) (payload ∷ []) (decode_frames rest))))

-- More bytes at the end of the buffer are decoded as if they came after the frames in front.
pub decode_frames-append :
    (k : ℕ) (buf ys : Bytes)
    → length buf ≤ k
    → decode_frames (buf ++ ys) ≡ read_more (λ r. decode_frames (r ++ ys)) (decode_frames buf)
unfolding read_more decode_frames
decode_frames-append zero [] ys p = sym (prepend-nil (decode_frames ys))
decode_frames-append zero (b ∷ buf) ys p = absurd (omega arith)
decode_frames-append (suc k) buf ys p =
    continue_with-append buf ys (next_frame buf) refl (λ payload rest e.
      let shorter = next_frame-shorter buf payload rest e in
      decode_frames-append k rest ys (omega arith))
    ∙ ap (read_more (λ r. decode_frames (r ++ ys))) (sym (decode_frames-next buf))
