-- ===== src/Transport/Tcp/Framing/Streams.antt =====
-- The frames of pkg/transport/tcp.go, whatever the chunks in which the stream is read.
use protorun.Prelude.{
  ℕ, zero, suc, ◌%◌, ◌^◌, ◌≤◌, ◌<◌, ◌≡◌, refl, ap, sym, subst, ◌∙◌, false, List, [], ◌∷◌, ◌++◌,
  append_assoc, append-nil, length, length-append, take, take-append_length, drop-append_length,
  ltb, Result, ok, ◌>>=◌, arith, All,
}
use protorun.Wire.{Bytes}
use protorun.Transport.Tcp.{
  max_frame_size, put_uint32, uint32, encode_frame, Next, next_frame, Decoded, prepend,
  continue_with, decode_rounds, decode_frames, read_more, read_chunks,
}
use protorun.Transport.Tcp.Framing.{
  decode_rounds-nil, decode_frames-next, next_frame-shorter, decode_frames-append,
}

-- What stays in the buffer holds no whole frame.
abbrev IsSettled : Decoded → Type 0
IsSettled (Decoded.decoded frames rest) = decode_frames rest ≡ Decoded.decoded [] rest
IsSettled (Decoded.too_large n) = Unit {0}

prepend-IsSettled : (frames : List Bytes) (d : Decoded) → IsSettled d → IsSettled (prepend frames d)
unfolding prepend
prepend-IsSettled frames (Decoded.decoded more rest) h = h
prepend-IsSettled frames (Decoded.too_large n) h = h

continue_with-IsSettled :
    (buf : Bytes) (next : Next)
    → next_frame buf ≡ next
    → ((payload rest : Bytes) → next ≡ Next.complete payload rest → IsSettled (decode_frames rest))
    → IsSettled (continue_with decode_frames next buf)
unfolding continue_with
continue_with-IsSettled buf Next.incomplete e h = decode_frames-next buf ∙ rw e refl
continue_with-IsSettled buf (Next.oversized n) e h = tt
continue_with-IsSettled buf (Next.complete payload rest) e h =
    prepend-IsSettled (payload ∷ []) (decode_frames rest) (h payload rest refl)

decode_frames-IsSettled : (k : ℕ) (buf : Bytes) → length buf ≤ k → IsSettled (decode_frames buf)
unfolding decode_frames
decode_frames-IsSettled zero [] p = decode_rounds-nil 0
decode_frames-IsSettled zero (b ∷ buf) p = absurd (omega arith)
decode_frames-IsSettled (suc k) buf p = subst IsSettled (sym (decode_frames-next buf)) (
    continue_with-IsSettled buf (next_frame buf) refl λ payload rest e.
      let shorter = next_frame-shorter buf payload rest e in
      decode_frames-IsSettled k rest (omega arith))

read_more-cong :
    (f g : Bytes → Decoded) (d : Decoded)
    → ((frames : List Bytes) (rest : Bytes) → d ≡ Decoded.decoded frames rest → f rest ≡ g rest)
    → read_more f d ≡ read_more g d
unfolding read_more
read_more-cong f g (Decoded.decoded frames rest) h = ap (prepend frames) (h frames rest refl)
read_more-cong f g (Decoded.too_large n) h = refl

abbrev pub concat : List Bytes → Bytes
concat [] = []
concat (chunk ∷ chunks) = chunk ++ concat chunks

-- From a buffer without a whole frame, the reads of a stream in chunks give the frames of the whole.
pub read_chunks-concat :
    (chunks : List Bytes) (buf : Bytes)
    → decode_frames buf ≡ Decoded.decoded [] buf
    → read_chunks chunks buf ≡ decode_frames (buf ++ concat chunks)
unfolding read_chunks
read_chunks-concat [] buf e = sym (rw (append-nil buf) e)
read_chunks-concat (chunk ∷ chunks) buf e =
    read_more-cong (read_chunks chunks) (λ r. decode_frames (r ++ concat chunks))
      (decode_frames (buf ++ chunk))
      (λ frames rest d. read_chunks-concat chunks rest (
        subst IsSettled d
          (decode_frames-IsSettled (length (buf ++ chunk)) (buf ++ chunk) (omega arith))))
    ∙ (sym (
          decode_frames-append (length (buf ++ chunk)) (buf ++ chunk) (concat chunks) (omega arith))
        ∙ ap decode_frames (append_assoc buf chunk (concat chunks)))

-- The frames that are written to a connection, one after the other.
abbrev pub encode_frames : List Bytes → Result Bytes
encode_frames [] = ok []
encode_frames (payload ∷ payloads) = do
  frame ← encode_frame payload
  frames ← encode_frames payloads
  ok (frame ++ frames)

uint32-put_uint32 : (n : ℕ) (ys : Bytes) → n < 2 ^ 32 → uint32 (take 4 (put_uint32 n ++ ys)) ≡ n
unfolding uint32 put_uint32
uint32-put_uint32 n ys h = omega arith

next_frame-encoded :
    (p ys : Bytes)
    → length p ≤ max_frame_size
    → next_frame (put_uint32 (length p) ++ (p ++ ys)) ≡ Next.complete p ys
unfolding next_frame put_uint32
next_frame-encoded p ys h =
    let e = uint32-put_uint32 (length p) (p ++ ys) (omega arith) in
    ground (arith, e, length-append p ys, take-append_length p ys, drop-append_length p ys)

encode_frame-eq :
    (p : Bytes) → length p ≤ max_frame_size → encode_frame p ≡ ok (put_uint32 (length p) ++ p)
unfolding encode_frame
encode_frame-eq p h =
    let e : length p % 2 ^ 32 ≡ length p = omega arith in
    let f : ltb 0xFFFFFFFF (length p) ≡ false = ground arith in rw (encode_frame, f, e) refl

-- The bytes of frames, one after the other.
abbrev pub stream : List Bytes → Bytes
stream [] = []
stream (p ∷ payloads) = (put_uint32 (length p) ++ p) ++ stream payloads

encode_frames-eq :
    (payloads : List Bytes)
    → All (λ p. length p ≤ max_frame_size) payloads
    → encode_frames payloads ≡ ok (stream payloads)
encode_frames-eq [] h = refl
encode_frames-eq (p ∷ payloads) (h, hs) =
    rw (encode_frame-eq p h, encode_frames-eq payloads hs) refl

decode_frames-stream :
    (payloads : List Bytes)
    → All (λ p. length p ≤ max_frame_size) payloads
    → decode_frames (stream payloads) ≡ Decoded.decoded payloads []
unfolding continue_with prepend decode_frames
decode_frames-stream [] h = decode_rounds-nil 0
decode_frames-stream (p ∷ payloads) (h, hs) =
    decode_frames-next (stream (p ∷ payloads))
    ∙ rw
        (
          append_assoc (put_uint32 (length p)) p (stream payloads),
          next_frame-encoded p (stream payloads) h,
          decode_frames-stream payloads hs,
        )
        refl

-- Payloads of at most 16 MiB that are written as frames
pub read_chunks-encode_frames :
    (payloads chunks : List Bytes)
    → All (λ p. length p ≤ max_frame_size) payloads
    → encode_frames payloads ≡ ok (concat chunks)
    → read_chunks chunks [] ≡ Decoded.decoded payloads []
unfolding decode_frames decode_rounds
read_chunks-encode_frames payloads chunks h e =
    let o : ok (stream payloads) ≡ ok (concat chunks) = sym (encode_frames-eq payloads h) ∙ e in
    let s : stream payloads ≡ concat chunks = cc o in
    read_chunks-concat chunks [] (decode_rounds-nil 0)
    ∙ (ap decode_frames (sym s) ∙ decode_frames-stream payloads h)
