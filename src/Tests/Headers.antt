-- ===== src/Tests/Headers.antt =====
-- The headers of packets, with the layout that the bytes have on the wire.
use vigor.Prelude.{ℕ, ◌+◌, ◌*◌, ◌/◌, ◌%◌, ◌≤◌, ◌≡◌, refl, none, some, arith, if◌then◌else◌, ◌==◌}
use vigor.Prelude.Arrays.{Array}
use vigor.Headers.{Layout, Reading, packet_state_total_length, get_headers, nf_return_all_chunks}
use vigor.Headers.Bounds.{fresh, ipv4_at, tcpudp_at, get_headers_lem, is_ipv4, options}

-- On a machine that stores the low byte first.
abbrev wire : Layout
wire = record {
  ether_hdr_size = 14;
  ipv4_hdr_size = 20;
  ether_type = λ bytes o. bytes (o + 12) + bytes (o + 13) * 256;
  version_ihl = λ bytes o. bytes o;
  total_length = λ bytes o. bytes (o + 2) + bytes (o + 3) * 256;
  next_proto_id = λ bytes o. bytes (o + 9);
  rte_be_to_cpu_16 = λ x. x % 256 * 256 + x / 256;
  ether_type_ipv4 = 2048;
  ipproto_tcp = 6;
  ipproto_udp = 17;
  ether_small = omega arith;
  ipv4_small = omega arith;
}

-- A packet of UDP over IPv4 of 60 bytes, whose header has `words` words.
abbrev udp : (words : ℕ) → Array ℕ
udp words k =
    if k == 12
    then 8
    else if k == 14
    then 64 + words
    else if k == 17
    then 46
    else if k == 23
    then 17
    else 0

-- With four bytes of options, and with options of 40 bytes, of which 26 are there.
places :
    (ipv4_at wire (udp 6) 60 ≡ some 14)
    × (tcpudp_at wire (udp 6) 60 ≡ some 38)
    × (ipv4_at wire (udp 15) 60 ≡ some 14)
    × (tcpudp_at wire (udp 15) 60 ≡ some 34)
    × (ipv4_at wire (udp 6) 50 ≡ none)
unfolding ipv4_at tcpudp_at is_ipv4 options
places = (refl, refl, refl, refl, refl)

get_headers_lem_example :
    (s : Reading) × (get_headers wire (udp 6) (packet_state_total_length 60 (fresh 1500))
      ≡ some (record {
        ipv4 = ipv4_at wire (udp 6) 60;
        tcpudp = tcpudp_at wire (udp 6) 60;
        reading = s;
      }))
    × (s.read_length ≤ 60)
    × (nf_return_all_chunks s ≡ fresh 60)
get_headers_lem_example = get_headers_lem wire (udp 6) 60 (omega arith) (omega arith) 1500
