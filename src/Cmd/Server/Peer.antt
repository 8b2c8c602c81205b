-- ===== src/Cmd/Server/Peer.antt =====
-- The two ends of a DNS query, written out: the client that `parseRemoteAddr` of internal/server/dns.go
-- finds, and the address that the default response plugin of internal/plugins/core answers.
use oastrix.Prelude.{
  ℤ, pos, Bool, true, false, Str, bytes, Option, none, some, ◌≡◌, refl, if◌then◌else◌,
}
use oastrix.Plugins.Core.DefaultResponse.{public_ip_or_loopback}
use oastrix.Server.Dns.{
  NetAddr, udp_addr, tcp_addr, other_addr, parse_remote_addr, protocol_of, rd_of,
}

-- The client of a connection, and the protocol that it came with.
abbrev pub peer : NetAddr → Str × ℤ
peer (udp_addr ip port) = (ip, port)
peer (tcp_addr ip port) = (ip, port)
peer (other_addr text) = (text, pos 0)

abbrev pub peer_protocol : NetAddr → Str
peer_protocol (udp_addr ip port) = bytes "udp"
peer_protocol (tcp_addr ip port) = bytes "tcp"
peer_protocol (other_addr text) = bytes "udp"

pub parse_remote_addr-peer : (addr : NetAddr) → parse_remote_addr addr ≡ peer addr
unfolding parse_remote_addr
parse_remote_addr-peer (udp_addr ip port) = refl
parse_remote_addr-peer (tcp_addr ip port) = refl
parse_remote_addr-peer (other_addr text) = refl

pub protocol_of-peer : (addr : NetAddr) → protocol_of addr ≡ peer_protocol addr
protocol_of-peer (udp_addr ip port) = refl
protocol_of-peer (tcp_addr ip port) = refl
protocol_of-peer (other_addr text) = refl

pub rd_of-if : (rd : Bool) → rd_of rd ≡ (if rd then 1 else 0)
rd_of-if true = refl
rd_of-if false = refl

-- The address of the server, as it is configured, or the loopback address where that is none.
abbrev pub server_address : Option Str → Str
server_address none = bytes "127.0.0.1"
server_address (some ip) = ip

pub public_ip_or_loopback-address : (o : Option Str) → public_ip_or_loopback o ≡ server_address o
public_ip_or_loopback-address none = refl
public_ip_or_loopback-address (some ip) = refl
