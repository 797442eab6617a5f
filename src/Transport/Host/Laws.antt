-- ===== src/Transport/Host/Laws.antt =====
-- The wire form of a host, and the order on hosts.
use protorun.Prelude.{
  ◌%◌, ◌^◌, ◌<◌, ◌≤◌, ◌≡◌, refl, true, false, [], ◌∷◌, ◌++◌, append_assoc, length, ltb,
  if◌then◌else◌, ok, arith, ◌⊎◌, inl, inr, bytes_beq_iff,
}
use protorun.Wire.{Bytes, read_full, write_uint16}
use protorun.Wire.Laws.{read_uint16-write, read_full-append}
use protorun.Transport.Host.{Host, write_host, read_host, bytes_less, host_less}

pub record IsEncodable (h : Host) : Type 0 where
  pub ip_fits : length h.ip ≤ 0xFFFF
  pub port_fits : h.port < 2 ^ 16

read_name :
    (b rest : Bytes)
    → (if ltb 0 (length b) then read_full (length b) (b ++ rest) else ok ([], b ++ rest))
      ≡ ok (b, rest)
read_name [] rest = refl
read_name (x ∷ b) rest = ground (arith, read_full-append (x ∷ b) rest)

-- The bytes of a host that fits.
abbrev pub host_wire : Host → Bytes
host_wire h = write_uint16 (length h.ip) ++ (h.ip ++ write_uint16 h.port)

pub write_host-eq : (h : Host) → IsEncodable h → write_host h ≡ ok (host_wire h)
unfolding write_host
write_host-eq h v =
    let e : length h.ip % 2 ^ 16 ≡ length h.ip = omega arith in
    let p : h.port % 2 ^ 16 ≡ h.port = omega arith in rw (e, p) (ground arith)

pub read_host-wire :
    (h : Host) (rest : Bytes) → IsEncodable h → read_host (host_wire h ++ rest) ≡ ok (h, rest)
unfolding read_host
read_host-wire h rest v = rw (
  append_assoc (write_uint16 (length h.ip)) (h.ip ++ write_uint16 h.port) rest,
  append_assoc h.ip (write_uint16 h.port) rest,
  read_uint16-write (length h.ip) (h.ip ++ (write_uint16 h.port ++ rest)) (omega arith),
  read_name h.ip (write_uint16 h.port ++ rest),
  read_uint16-write h.port rest v.port_fits,
)

-- A host whose name and port fit is written, and read back with what follows it left.
pub read_host-write_host :
    (h : Host) (rest : Bytes)
    → IsEncodable h
    → (b : Bytes) × (write_host h ≡ ok b) × (read_host (b ++ rest) ≡ ok (h, rest))
read_host-write_host h rest v = (host_wire h, write_host-eq h v, read_host-wire h rest v)

bytes_less-trichotomy :
    (xs ys : Bytes) → (bytes_less xs ys ≡ true) ⊎ (bytes_less ys xs ≡ true) ⊎ (xs ≡ ys)
unfolding bytes_less
bytes_less-trichotomy [] [] = inr (inr refl)
bytes_less-trichotomy [] (y ∷ ys) = inl refl
bytes_less-trichotomy (x ∷ xs) [] = inr (inl refl)
bytes_less-trichotomy (x ∷ xs) (y ∷ ys) = ground (arith, bytes_less-trichotomy xs ys)

bytes_less-asymm : (xs ys : Bytes) → bytes_less xs ys ≡ true → bytes_less ys xs ≡ false
unfolding bytes_less
bytes_less-asymm [] [] h = refl
bytes_less-asymm [] (y ∷ ys) h = refl
bytes_less-asymm (x ∷ xs) [] h = cc
bytes_less-asymm (x ∷ xs) (y ∷ ys) h = ground (arith, bytes_less-asymm xs ys)

bytes_less_trans :
    (xs ys zs : Bytes) → bytes_less xs ys ≡ true → bytes_less ys zs ≡ true → bytes_less xs zs ≡ true
unfolding bytes_less
bytes_less_trans [] ys [] h k = k
bytes_less_trans [] ys (z ∷ zs) h k = refl
bytes_less_trans (x ∷ xs) [] zs h k = cc
bytes_less_trans (x ∷ xs) (y ∷ ys) [] h k = cc
bytes_less_trans (x ∷ xs) (y ∷ ys) (z ∷ zs) h k = ground (arith, bytes_less_trans xs ys zs)

-- `host_less` is a strict total order on hosts: any two different hosts are ordered one way only.
pub host_less-total : (a b : Host) → (host_less a b ≡ true) ⊎ (host_less b a ≡ true) ⊎ (a ≡ b)
unfolding host_less
host_less-total a b =
    ground
      (arith, bytes_beq_iff a.ip b.ip, bytes_beq_iff b.ip a.ip, bytes_less-trichotomy a.ip b.ip)

pub host_less-asymm : (a b : Host) → host_less a b ≡ true → host_less b a ≡ false
unfolding host_less
host_less-asymm a b h =
    ground (arith, bytes_beq_iff a.ip b.ip, bytes_beq_iff b.ip a.ip, bytes_less-asymm a.ip b.ip)

pub host_less_trans :
    (a b c : Host) → host_less a b ≡ true → host_less b c ≡ true → host_less a c ≡ true
unfolding host_less
host_less_trans a b c h k = ground (
  arith,
  bytes_beq_iff a.ip b.ip,
  bytes_beq_iff b.ip c.ip,
  bytes_beq_iff a.ip c.ip,
  bytes_less_trans a.ip b.ip c.ip,
  bytes_less-asymm a.ip b.ip,
  bytes_less-asymm c.ip b.ip,
)
