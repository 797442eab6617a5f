-- ===== src/Transport/Host.antt =====
-- pkg/transport/host.go, and the order `hostLess` by which raft and paxos sort their peers. The IP
-- is a Go string, that is, its bytes. A port is a Go int; ports are not negative here.
pub mod Laws
use protorun.Prelude.{
  ℕ, ◌%◌, ◌^◌, ◌≡◌, refl, ◌↔◌, Bool, true, false, ◌&&◌, ◌||◌, List, [], ◌∷◌, ◌++◌, length, ltb, leb,
  ◌==◌, if◌then◌else◌, Result, ok, err, too_long, ◌>>=◌, Eq, same, bytes_beq, bytes_beq_iff, arith,
}
use protorun.Wire.{Bytes, Reader, read_full, write_uint16, read_uint16}

pub record Host : Type 0 where
  pub port : ℕ
  pub ip : Bytes

unfoldable pub host_beq : Host → Host → Bool
host_beq a b = a.port == b.port && bytes_beq a.ip b.ip

pub host_beq_iff : (a b : Host) → (host_beq a b ≡ true) ↔ (a ≡ b)
unfolding host_beq
host_beq_iff a b = ground (arith, bytes_beq_iff a.ip b.ip)

instance abbrev pub host_eq : Eq Host
host_eq = record { beq = host_beq; beq_iff = host_beq_iff }

-- The zero value `transport.Host{}`.
abbrev pub zero_host : Host
zero_host = record { port = 0; ip = [] }

unfoldable pub write_host : Host → Result Bytes
write_host h =
    if ltb 0xFFFF (length h.ip)
    then err too_long
    else ok (write_uint16 (length h.ip % 2 ^ 16) ++ (h.ip ++ write_uint16 (h.port % 2 ^ 16)))

unfoldable pub read_host : Reader Host
read_host r = do
  (n, r₁) ← read_uint16 r
  (name, r₂) ← if ltb 0 n then read_full n r₁ else ok ([], r₁)
  (port, r₃) ← read_uint16 r₂
  ok (record { port = port; ip = name }, r₃)

-- Go's `<` on strings: by bytes, a proper prefix first.
unfoldable pub bytes_less : Bytes → Bytes → Bool
bytes_less xs [] = false
bytes_less [] (y ∷ ys) = true
bytes_less (x ∷ xs) (y ∷ ys) = let rest = bytes_less xs ys in if x == y then rest else ltb x y

unfoldable pub host_less : Host → Host → Bool
host_less a b = if bytes_beq a.ip b.ip then ltb a.port b.port else bytes_less a.ip b.ip
