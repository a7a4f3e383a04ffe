-- ===== src/Packet.antt =====
-- What the network functions read and write of a packet: libvig/verified/tcpudp_hdr.h, and the
-- fields of the IPv4 header.
use vigor.Prelude.{ℕ}

pub record Ipv4Hdr : Type 0 where
  pub src_addr : ℕ
  pub dst_addr : ℕ
  pub next_proto_id : ℕ

pub record TcpudpHdr : Type 0 where
  pub src_port : ℕ
  pub dst_port : ℕ
