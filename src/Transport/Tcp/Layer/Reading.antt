-- ===== src/Transport/Tcp/Layer/Reading.antt =====
-- What the layer of pkg/transport/tcp.go delivers from a connection, and a redial of a host.
use protorun.Prelude.{
  ℕ, ◌≡◌, refl, ap, ◌∙◌, sym, List, [], ◌∷◌, ◌++◌, none, some, nat_eq, lookup, lookup-insert_self,
  lookup-insert, lookup-delete, same_refl, ◌≤◌, All, length, ok, ◌≢◌, delete, arith,
}
use protorun.Wire.{Bytes}
use protorun.Transport.Host.{Host, host_eq}
use protorun.Transport.Address.{Address, Event}
use protorun.Transport.Tcp.{max_frame_size, Decoded, prepend, decode_frames, read_more, read_chunks}
use protorun.Transport.Tcp.Framing.Streams.{concat, encode_frames, read_chunks-encode_frames}
use protorun.Transport.Tcp.Layer.{
  close_active, add_active_conn, hang_up, connect, with_host, end_handler, Effect, TcpLayer, Read,
  deliver_all, Input, step, run, disconnect, connection_handler, read_frames, hand_over, with_host,
  connect, hang_up, close_active, add_active_conn, end_handler,
}

abbrev pub all_read : ℕ → List Bytes → List Input
all_read conn [] = []
all_read conn (bytes ∷ chunks) = Input.reads conn (Read.chunk bytes) ∷ all_read conn chunks

step-chunk :
    (conn : ℕ) (h : Host) (buf bytes : Bytes) (l : TcpLayer)
    → lookup conn l.handlers ≡ some (h, buf)
    → step l (Input.reads conn (Read.chunk bytes))
      ≡ hand_over conn h (decode_frames (buf ++ bytes)) l
unfolding step connection_handler read_frames
step-chunk conn h buf bytes l e = rw e refl

deliver_all-append :
    (h : Host) (xs ys : List Bytes) (effects : List Effect)
    → deliver_all h (xs ++ ys) effects ≡ deliver_all h ys (deliver_all h xs effects)
deliver_all-append h [] ys effects = refl
deliver_all-append h (x ∷ xs) ys effects = deliver_all-append h xs ys _

prepend-decoded :
    (xs frames : List Bytes) (rest : Bytes) (d : Decoded)
    → prepend xs d ≡ Decoded.decoded frames rest
    → (ys : List Bytes) × (d ≡ Decoded.decoded ys rest) × (xs ++ ys ≡ frames)
unfolding prepend
prepend-decoded xs frames rest (Decoded.decoded ys r) e =
    (ys, ap (λ b. Decoded.decoded ys b) (cc e), cc e)
prepend-decoded xs frames rest (Decoded.too_large n) e = cc e

-- What the reads of one connection deliver, whatever is in its buffer.
abbrev Delivers : ℕ → Host → List Bytes → Bytes → Type 0
Delivers conn h chunks rest =
    (buf : Bytes) (frames : List Bytes) (l : TcpLayer)
    → lookup conn l.handlers ≡ some (h, buf)
    → read_chunks chunks buf ≡ Decoded.decoded frames rest
    → (run (all_read conn chunks) l).effects ≡ deliver_all h frames l.effects

hand_over-Delivers :
    (conn : ℕ) (h : Host) (rest : Bytes) (chunks frames : List Bytes) (d : Decoded) (l : TcpLayer)
    → Delivers conn h chunks rest
    → read_more (read_chunks chunks) d ≡ Decoded.decoded frames rest
    → (run (all_read conn chunks) (hand_over conn h d l)).effects ≡ deliver_all h frames l.effects
unfolding read_more hand_over
hand_over-Delivers conn h rest chunks frames (Decoded.decoded xs buf) l ih e =
    let (ys, f, g) = prepend-decoded xs frames rest (read_chunks chunks buf) e in
    ih buf ys (hand_over conn h (Decoded.decoded xs buf) l)
      (lookup-insert_self conn (h, buf) l.handlers) f
    ∙ (sym (deliver_all-append h xs ys l.effects) ∙ ap (λ fs. deliver_all h fs l.effects) g)
hand_over-Delivers conn h rest chunks frames (Decoded.too_large n) l ih e = cc e

reads-Delivers :
    (conn : ℕ) (h : Host) (chunks : List Bytes) (rest : Bytes) → Delivers conn h chunks rest
unfolding run read_chunks
reads-Delivers conn h [] rest buf frames l e d =
    let f : [] ≡ frames = cc d in ap (λ fs. deliver_all h fs l.effects) f
reads-Delivers conn h (bytes ∷ chunks) rest buf frames l e d =
    ap (λ x. (run (all_read conn chunks) x).effects) (step-chunk conn h buf bytes l e)
    ∙ hand_over-Delivers conn h rest chunks frames (decode_frames (buf ++ bytes)) l
        (reads-Delivers conn h chunks rest) d

-- Payloads of at most 16 MiB each are written as frames; however the bytes are cut into chunks,
-- the reads of these chunks by a connection with an empty buffer deliver the payloads of its host,
-- each once and in their order, and do nothing else.
pub reads-encode_frames :
    (conn : ℕ) (h : Host) (payloads chunks : List Bytes) (l : TcpLayer)
    → lookup conn l.handlers ≡ some (h, [])
    → All (λ p. length p ≤ max_frame_size) payloads
    → encode_frames payloads ≡ ok (concat chunks)
    → (run (all_read conn chunks) l).effects ≡ deliver_all h payloads l.effects
reads-encode_frames conn h payloads chunks l e s w =
    reads-Delivers conn h chunks [] [] payloads l e (read_chunks-encode_frames payloads chunks s w)

step-hang_up :
    (h : Host) (conn : ℕ) (l : TcpLayer)
    → lookup h l.active_connections ≡ some conn
    → step l (Input.disconnects (Address.at h)) ≡ close_active h (some conn) l
unfolding step hang_up disconnect
step-hang_up h conn l e = rw (step, hang_up, disconnect, e) refl

step-broken :
    (h : Host) (old conn : ℕ) (buf : Bytes) (l : TcpLayer)
    → lookup old l.handlers ≡ some (h, buf)
    → lookup h l.active_connections ≡ some conn
    → step l (Input.reads old Read.broken)
      ≡ close_active h (some conn) (record l { handlers = delete old l.handlers })
unfolding step connection_handler read_frames end_handler disconnect
step-broken h old conn buf l e a =
    rw (step, e, connection_handler, read_frames, end_handler, disconnect, a) refl

-- A host is hung up and dialled again before the goroutine of the old connection ends: when its
-- read fails, it closes the new connection, and no connection to the host is left.
pub redial-closed :
    (old new : ℕ) (h : Host) (buf : Bytes) (l : TcpLayer)
    → (old ≢ new)
    → lookup h l.active_connections ≡ some old
    → lookup old l.handlers ≡ some (h, buf)
    → let addr : Address = Address.at h in
      let l' : TcpLayer =
        run
          (Input.disconnects addr
            ∷ Input.connects addr (some new)
            ∷ Input.reads old Read.broken
            ∷ [])
          l in
      (l'.effects
        ≡ Effect.emits (Event.disconnected addr)
          ∷ Effect.closes new
          ∷ Effect.emits (Event.connected addr)
          ∷ Effect.emits (Event.disconnected addr)
          ∷ Effect.closes old
          ∷ l.effects)
      × (lookup h l'.active_connections ≡ none)
unfolding run step with_host connect close_active add_active_conn
redial-closed old new h buf l n a e =
    let l₁ : TcpLayer = close_active h (some old) l in
    let l₂ : TcpLayer = add_active_conn new h l₁ in
    let key : lookup old l₂.handlers ≡ some (h, buf) =
      ground (arith, lookup-insert new old (h, []) l.handlers, e) in
    let eq : run
          (Input.disconnects (Address.at h)
            ∷ Input.connects (Address.at h) (some new)
            ∷ Input.reads old Read.broken
            ∷ [])
          l
        ≡ close_active h (some new) (record l₂ { handlers = delete old l₂.handlers }) =
      ap (λ x. step (add_active_conn new h x) (Input.reads old Read.broken))
        (step-hang_up h old l a)
      ∙ step-broken h old new buf l₂ key (lookup-insert_self h new l₁.active_connections) in
    rw eq (refl, lookup-delete h h l₂.active_connections ∙ rw (same_refl h) refl)
