-- ===== src/Headers.antt =====
-- libvig/verified/packet-io.c and the header getters of nf-util.h: a packet is read chunk by chunk
-- from its start. A pointer into the packet is its offset.
pub mod Bounds
use vigor.Prelude.{
  ℕ, ◌+◌, ◌-◌, ◌*◌, ◌%◌, ◌<◌, Bool, not, ◌&&◌, ◌||◌, Option, none, some, List, [], ◌∷◌, ltb, leb,
  ◌==◌, if◌then◌else◌,
}
use vigor.Prelude.Arrays.{Array, u32}
use vigor.Prelude.Lists.{length}
use Prim.Native.Nat.{bit_and}

-- What rte_ether.h, rte_ip.h and rte_byteorder.h define: the sizes of two headers, their fields as
-- they lie in the bytes of a packet behind an offset, and the order of bytes of the machine.
pub record Layout : Type 0 where
  pub ether_hdr_size : ℕ
  pub ipv4_hdr_size : ℕ
  pub ether_type : Array ℕ → ℕ → ℕ
  pub version_ihl : Array ℕ → ℕ → ℕ
  pub total_length : Array ℕ → ℕ → ℕ
  pub next_proto_id : Array ℕ → ℕ → ℕ
  pub rte_be_to_cpu_16 : ℕ → ℕ
  pub ether_type_ipv4 : ℕ
  pub ipproto_tcp : ℕ
  pub ipproto_udp : ℕ
  pub ether_small : 0 < ether_hdr_size
  pub ipv4_small : 0 < ipv4_hdr_size

-- `global_total_length` and `global_read_length`, and `chunks_borrowed`, the last one first.
pub record Reading : Type 0 where
  pub total_length : ℕ
  pub read_length : ℕ
  pub chunks : List ℕ

-- A `size_t` wraps at 2^64.
unfoldable pub packet_state_total_length : (len : ℕ) → Reading → Reading
packet_state_total_length len s = record s { total_length = len }

-- The chunk, and the state.
unfoldable pub packet_borrow_next_chunk : Reading → (length : ℕ) → ℕ × Reading
packet_borrow_next_chunk s length =
    (s.read_length, record s { read_length = (s.read_length + length) % 18446744073709551616 })

unfoldable pub packet_return_chunk : Reading → (chunk : ℕ) → Reading
packet_return_chunk s chunk = record s { read_length = u32 chunk }

unfoldable pub packet_get_unread_length : Reading → ℕ
packet_get_unread_length s =
    u32 ((s.total_length + (18446744073709551616 - s.read_length)) % 18446744073709551616)

-- `none` is the failing assertion.
unfoldable pub nf_borrow_next_chunk : Reading → (size : ℕ) → Option (ℕ × Reading)
nf_borrow_next_chunk s size =
    let (chunk, s') = packet_borrow_next_chunk s size in
    if ltb (length s.chunks) 100
    then some (chunk, record s' { chunks = chunk ∷ s.chunks })
    else none

-- The loop of `nf_return_all_chunks`, over the chunks that are left.
unfoldable pub return_chunks : List ℕ → Reading → Reading
return_chunks [] s = record s { chunks = [] }
return_chunks (chunk ∷ chunks) s = return_chunks chunks (packet_return_chunk s chunk)

unfoldable pub nf_return_all_chunks : Reading → Reading
nf_return_all_chunks s = return_chunks s.chunks s

-- The headers that `nf_process` reads, `none` for NULL or for one that it does not ask for any more.
pub record Parsed : Type 0 where
  pub ipv4 : Option ℕ
  pub tcpudp : Option ℕ
  pub reading : Reading

module _ (layout : Layout) (bytes : Array ℕ) where
  unfoldable pub nf_has_rte_ipv4_header : (header : ℕ) → Bool
  nf_has_rte_ipv4_header header =
      layout.ether_type bytes header == layout.rte_be_to_cpu_16 layout.ether_type_ipv4

  unfoldable pub nf_has_tcpudp_header : (header : ℕ) → Bool
  nf_has_tcpudp_header header =
      layout.next_proto_id bytes header == layout.ipproto_tcp
      || layout.next_proto_id bytes header == layout.ipproto_udp

  unfoldable pub nf_then_get_rte_ether_header : Reading → Option (ℕ × Reading)
  nf_then_get_rte_ether_header s = nf_borrow_next_chunk s layout.ether_hdr_size

  -- The header stands, whatever became of its options.
  unfoldable pub skip_options : (hdr : ℕ) → Option (ℕ × Reading) → Option (Option ℕ × Reading)
  skip_options hdr none = none
  skip_options hdr (some (ip_options, s)) = some (some hdr, s)

  -- The part behind the borrowing of the header.
  unfoldable pub check_ipv4 : (unread_len : ℕ) → Option (ℕ × Reading) → Option (Option ℕ × Reading)
  check_ipv4 unread_len none = none
  check_ipv4 unread_len (some (hdr, s)) =
      let ihl = bit_and (layout.version_ihl bytes hdr) 15 in
      let ip_options_length = (ihl - 5) * 4 % 65536 in
      if ltb ihl 5 || ltb unread_len (layout.rte_be_to_cpu_16 (layout.total_length bytes hdr))
      then some (none, s)
      else if not (ip_options_length == 0)
          && leb ip_options_length (unread_len - layout.ipv4_hdr_size)
      then skip_options hdr (nf_borrow_next_chunk s ip_options_length)
      else some (some hdr, s)

  unfoldable pub nf_then_get_rte_ipv4_header :
      (rte_ether_header : ℕ) → Reading → Option (Option ℕ × Reading)
  nf_then_get_rte_ipv4_header rte_ether_header s =
      let unread_len = packet_get_unread_length s % 65536 in
      if not (nf_has_rte_ipv4_header rte_ether_header) || ltb unread_len layout.ipv4_hdr_size
      then some (none, s)
      else check_ipv4 unread_len (nf_borrow_next_chunk s layout.ipv4_hdr_size)

  unfoldable pub found_ports : Option (ℕ × Reading) → Option (Option ℕ × Reading)
  found_ports none = none
  found_ports (some (hdr, s)) = some (some hdr, s)

  -- `sizeof(struct tcpudp_hdr)` is 4.
  unfoldable pub nf_then_get_tcpudp_header : (ip_header : ℕ) → Reading → Option (Option ℕ × Reading)
  nf_then_get_tcpudp_header ip_header s =
      if not (nf_has_tcpudp_header ip_header) || ltb (packet_get_unread_length s) 4
      then some (none, s)
      else found_ports (nf_borrow_next_chunk s 4)

  unfoldable pub with_tcpudp : (ipv4 : ℕ) → Option (Option ℕ × Reading) → Option Parsed
  with_tcpudp ipv4 none = none
  with_tcpudp ipv4 (some (tcpudp, s)) =
      some (record { ipv4 = some ipv4; tcpudp = tcpudp; reading = s })

  unfoldable pub with_ipv4 : Option (Option ℕ × Reading) → Option Parsed
  with_ipv4 none = none
  with_ipv4 (some (none, s)) = some (record { ipv4 = none; tcpudp = none; reading = s })
  with_ipv4 (some (some ipv4, s)) = with_tcpudp ipv4 (nf_then_get_tcpudp_header ipv4 s)

  unfoldable pub with_ether : Option (ℕ × Reading) → Option Parsed
  with_ether none = none
  with_ether (some (ether, s)) = with_ipv4 (nf_then_get_rte_ipv4_header ether s)

  -- The getters, as `nf_process` of fw_main.c calls them.
  unfoldable pub get_headers : Reading → Option Parsed
  get_headers s = with_ether (nf_then_get_rte_ether_header s)
