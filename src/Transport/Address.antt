-- ===== src/Transport/Address.antt =====
-- pkg/transport/address.go and pkg/transport/layer.go: the addresses of peers, and what a transport
-- carries and reports. An address of another backend than TCP or QUIC shows only its string here.
use protorun.Prelude.{Bool, false, Option, none, some}
use protorun.Wire.{Bytes}
use protorun.Transport.Host.{Host, host_beq}
use protorun.Transport.HostSet.{host_string}

pub data Address : Type 0 where
  at : Host → Address
  other : Bytes → Address

-- `String`, by which the session layer keys its maps.
unfoldable pub address_string : Address → Bytes
address_string (Address.at h) = host_string h
address_string (Address.other s) = s

-- `Host.Equal`
unfoldable pub equal : Host → Address → Bool
equal h (Address.at o) = host_beq h o
equal h (Address.other s) = false

unfoldable pub host_from_address : Address → Option Host
host_from_address (Address.at h) = some h
host_from_address (Address.other s) = none

pub record Message : Type 0 where
  pub peer : Address
  pub msg : Bytes

pub data Event : Type 0 where
  connected : Address → Event
  disconnected : Address → Event
  failed : Address → Event
