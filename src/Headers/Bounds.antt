-- ===== src/Headers/Bounds.antt =====
-- Where the header getters of nf-util.h find the headers, and that they stay within the packet.
use vigor.Prelude.{
  ℕ, ◌+◌, ◌-◌, ◌*◌, ◌%◌, ◌<◌, ◌≤◌, ◌≡◌, refl, ap, ◌∙◌, Bool, true, false, not, ◌&&◌, ◌||◌, Option,
  none, some, List, [], ◌∷◌, ltb, leb, ◌==◌, if◌then◌else◌, Bool-cases, inl, inr, arith,
}
use vigor.Prelude.Arrays.{Array}
use vigor.Prelude.Bits.{bit_and-ones}
use vigor.Prelude.Lists.{length}
use vigor.Headers.{
  Layout, Reading, packet_state_total_length, packet_borrow_next_chunk, packet_return_chunk,
  packet_get_unread_length, nf_borrow_next_chunk, return_chunks, nf_return_all_chunks,
  nf_has_rte_ipv4_header, nf_has_tcpudp_header, nf_then_get_rte_ether_header, skip_options,
  check_ipv4, nf_then_get_rte_ipv4_header, found_ports, nf_then_get_tcpudp_header, with_tcpudp,
  with_ipv4, with_ether, get_headers,
}
use Prim.Native.Nat.{bit_and}

-- A packet of which nothing is borrowed.
abbrev pub fresh : (size : ℕ) → Reading
fresh size = record { total_length = size; read_length = 0; chunks = [] }

-- Up to `read`, with the chunks at these offsets.
abbrev at : (size read : ℕ) → List ℕ → Reading
at size read chunks = record { total_length = size; read_length = read; chunks = chunks }

borrow_lem :
    (size read n : ℕ) (chunks : List ℕ)
    → read + n < 18446744073709551616
    → ltb (length chunks) 100 ≡ true
    → nf_borrow_next_chunk (at size read chunks) n ≡ some (read, at size (read + n) (read ∷ chunks))
unfolding nf_borrow_next_chunk packet_borrow_next_chunk
borrow_lem size read n chunks l few =
    let sum : (read + n) % 18446744073709551616 ≡ read + n = omega arith in rw (sum, few) refl

unread_lem :
    (size read : ℕ) (chunks : List ℕ)
    → read ≤ size
    → size < 65536
    → packet_get_unread_length (at size read chunks) ≡ size - read
unfolding packet_get_unread_length
unread_lem size read chunks l m = omega arith

return_chunks_from :
    (size read : ℕ) (chunks xs ys : List ℕ)
    → return_chunks chunks (at size read xs) ≡ return_chunks chunks (at size read ys)
unfolding return_chunks packet_return_chunk
return_chunks_from size read [] xs ys = refl
return_chunks_from size read (chunk ∷ chunks) xs ys =
    return_chunks_from size (chunk % 4294967296) chunks xs ys

return_one :
    (size read : ℕ) (chunks : List ℕ)
    → read < 4294967296
    → nf_return_all_chunks (at size (read + 4) (read ∷ chunks))
      ≡ nf_return_all_chunks (at size read chunks)
unfolding nf_return_all_chunks return_chunks packet_return_chunk
return_one size read chunks l =
    let low : read % 4294967296 ≡ read = omega arith in
    rw low (return_chunks_from size read chunks (read ∷ chunks) chunks)

module _ (layout : Layout) (bytes : Array ℕ) where
  abbrev ether : ℕ
  ether = layout.ether_hdr_size

  abbrev behind : ℕ
  behind = layout.ether_hdr_size + layout.ipv4_hdr_size

  abbrev ihl : ℕ
  ihl = layout.version_ihl bytes ether % 16

  -- The type of the frame, which the network stores with the high byte first, is that of IPv4.
  abbrev says_ipv4 : Bool
  says_ipv4 = layout.ether_type bytes 0 == layout.rte_be_to_cpu_16 layout.ether_type_ipv4

  -- The protocol is TCP or UDP.
  abbrev says_ports : Bool
  says_ports =
      layout.next_proto_id bytes ether == layout.ipproto_tcp
      || layout.next_proto_id bytes ether == layout.ipproto_udp

  type_lem : nf_has_rte_ipv4_header layout bytes 0 ≡ says_ipv4
  unfolding nf_has_rte_ipv4_header
  type_lem = refl

  protocol_lem : nf_has_tcpudp_header layout bytes ether ≡ says_ports
  unfolding nf_has_tcpudp_header
  protocol_lem = refl

  -- There is an IPv4 header: the Ethernet header says so, it fits, and so do the lengths in it.
  unfoldable pub is_ipv4 : (size : ℕ) → Bool
  is_ipv4 size =
      says_ipv4
      && leb behind size
      && leb 5 ihl
      && leb (layout.rte_be_to_cpu_16 (layout.total_length bytes ether)) (size - ether)

  -- The length of the options that lie in the packet.
  unfoldable pub options : (size : ℕ) → ℕ
  options size = if leb (behind + (ihl - 5) * 4) size then (ihl - 5) * 4 else 0

  -- The offsets of the two headers.
  unfoldable pub ipv4_at : (size : ℕ) → Option ℕ
  ipv4_at size = if is_ipv4 size then some ether else none

  unfoldable pub tcpudp_at : (size : ℕ) → Option ℕ
  tcpudp_at size =
      if is_ipv4 size && says_ports && leb (behind + options size + 4) size
      then some (behind + options size)
      else none

  module _ (size : ℕ) (small : size < 65536) (room : ether ≤ size) where
    -- The state from which `nf_return_all_chunks` starts over.
    abbrev IsWithin : Reading → Type 0
    IsWithin s = (s.read_length ≤ size) × (nf_return_all_chunks s ≡ fresh size)

    checked_lem :
        behind ≤ size
        → ltb ihl 5
            || ltb (size - ether) (layout.rte_be_to_cpu_16 (layout.total_length bytes ether))
          ≡ false
        → (read : ℕ) × (chunks : List ℕ) × (check_ipv4 layout bytes
              (size - ether)
              (some (ether, at size behind (ether ∷ 0 ∷ [])))
            ≡ some (some ether, at size read chunks))
          × IsWithin (at size read chunks)
          × (read ≡ behind + options size)
          × (ltb (length chunks) 100 ≡ true)
    unfolding check_ipv4 skip_options options nf_return_all_chunks return_chunks packet_return_chunk
    checked_lem inside good =
        let words : bit_and (layout.version_ihl bytes ether) 15 ≡ ihl =
          bit_and-ones 4 (layout.version_ihl bytes ether) in
        let bytes_left : (ihl - 5) * 4 % 65536 ≡ (ihl - 5) * 4 = omega arith in
        elim (Bool-cases
          (not ((ihl - 5) * 4 == 0) && leb ((ihl - 5) * 4) (size - ether - layout.ipv4_hdr_size))) [
            | inl skip ↦
                let inside' : behind + (ihl - 5) * 4 ≤ size = ground (arith, skip) in
                let counted : leb (behind + (ihl - 5) * 4) size ≡ true = ground (arith, inside') in
                let skipped =
                  borrow_lem size behind ((ihl - 5) * 4) (ether ∷ 0 ∷ []) (omega arith) refl in
                (
                  behind + (ihl - 5) * 4,
                  behind ∷ ether ∷ 0 ∷ [],
                  rw (words, good, bytes_left, skip, skipped) refl,
                  (inside', refl),
                  rw counted refl,
                  refl,
                )
            | inr keep ↦
                let none_left : (if leb (behind + (ihl - 5) * 4) size then (ihl - 5) * 4 else 0)
                    ≡ 0 =
                  ground (arith, keep, inside) in
                (
                  behind,
                  ether ∷ 0 ∷ [],
                  rw (words, good, bytes_left, keep) refl,
                  (inside, refl),
                  omega (arith, none_left),
                  refl,
                )
          ]

    ipv4_lem :
        (read : ℕ) × (chunks : List ℕ) × (nf_then_get_rte_ipv4_header layout bytes 0
            (at size ether (0 ∷ []))
          ≡ some (ipv4_at size, at size read chunks))
        × IsWithin (at size read chunks)
        × (is_ipv4 size ≡ true → (read ≡ behind + options size) × (ltb (length chunks) 100 ≡ true))
    unfolding nf_then_get_rte_ipv4_header check_ipv4 skip_options ipv4_at is_ipv4 options
        nf_return_all_chunks return_chunks packet_return_chunk
    ipv4_lem =
        let header = layout.total_length bytes ether in
        let unread : packet_get_unread_length (at size ether (0 ∷ [])) % 65536 ≡ size - ether =
          omega (arith, unread_lem size ether (0 ∷ []) room small) in
        let words : bit_and (layout.version_ihl bytes ether) 15 ≡ ihl =
          bit_and-ones 4 (layout.version_ihl bytes ether) in
        let bytes_left : (ihl - 5) * 4 % 65536 ≡ (ihl - 5) * 4 = omega arith in
        elim (Bool-cases says_ipv4) [
          | inr other ↦ (
            ether,
            0 ∷ [],
            rw (type_lem, other) refl,
            (room, refl),
            λ e. absurd (ground (arith, e, other)),
          )
          | inl ip ↦ elim (Bool-cases (leb behind size)) [
            | inr short ↦
                let cut : ltb (size - ether) layout.ipv4_hdr_size ≡ true = ground (arith, short) in
                (
                  ether,
                  0 ∷ [],
                  rw (unread, type_lem, ip, cut, short) refl,
                  (room, refl),
                  λ e. absurd (ground (arith, e, short)),
                )
            | inl fits ↦
                let whole : ltb (size - ether) layout.ipv4_hdr_size ≡ false =
                  ground (arith, fits) in
                let inside : behind ≤ size = ground (arith, fits) in
                let borrowed =
                  borrow_lem size ether layout.ipv4_hdr_size (0 ∷ []) (omega arith) refl in
                elim (Bool-cases
                  (ltb ihl 5 || ltb (size - ether) (layout.rte_be_to_cpu_16 header))) [
                    | inl bad ↦
                        let not_ip : leb 5 ihl
                              && leb (layout.rte_be_to_cpu_16 header) (size - ether)
                            ≡ false =
                          ground (arith, bad) in
                        (
                          behind,
                          ether ∷ 0 ∷ [],
                          rw (unread, type_lem, ip, whole, fits, borrowed, words, bad, not_ip) refl,
                          (inside, refl),
                          λ e. absurd (ground (arith, e, not_ip)),
                        )
                    | inr good ↦
                        let sound : leb 5 ihl && leb (layout.rte_be_to_cpu_16 header) (size - ether)
                            ≡ true =
                          ground (arith, good) in
                        let (read, chunks, e, within, place, few) = checked_lem inside good in
                        (
                          read,
                          chunks,
                          rw (unread, type_lem, ip, whole, fits, borrowed, sound, e) refl,
                          within,
                          λ e. (place, few),
                        )
                  ]
          ]
        ]

    tcpudp_lem :
        (read : ℕ) (chunks : List ℕ)
        → IsWithin (at size read chunks)
        → read ≡ behind + options size
        → ltb (length chunks) 100 ≡ true
        → is_ipv4 size ≡ true
        → (s : Reading) × (nf_then_get_tcpudp_header layout bytes ether (at size read chunks)
            ≡ some (tcpudp_at size, s))
          × IsWithin s
    unfolding nf_then_get_tcpudp_header tcpudp_at found_ports
    tcpudp_lem read chunks (l, back) e few ipv4 =
        let unread = unread_lem size read chunks l small in
        elim (Bool-cases says_ports) [
          | inr other ↦ (at size read chunks, rw (protocol_lem, other, ipv4) refl, (l, back))
          | inl has ↦ elim (Bool-cases (ltb (size - read) 4)) [
            | inl short ↦
                let out : leb (behind + options size + 4) size ≡ false = ground (arith, short) in
                (
                  at size read chunks,
                  rw (unread, protocol_lem, has, ipv4, short, out) refl,
                  (l, back),
                )
            | inr fits ↦
                let inside : leb (behind + options size + 4) size ≡ true = ground (arith, fits) in
                let borrowed = borrow_lem size read 4 chunks (omega arith) few in
                (
                  at size (read + 4) (read ∷ chunks),
                  rw (unread, protocol_lem, has, ipv4, fits, inside, borrowed)
                      (ap (λ x. some (some x, at size (read + 4) (read ∷ chunks))) e),
                  (ground (arith, fits), return_one size read chunks (omega arith) ∙ back),
                )
          ]
        ]

    -- Let nothing of the last packet be borrowed, and let a packet have fewer than 2^16 bytes
    -- and room for an Ethernet header. Then the header getters, called as `nf_process` of the
    -- firewall calls them, fail no assertion and borrow nothing behind the end of the packet.
    -- They find an IPv4 header behind the Ethernet header exactly if the type field of the
    -- frame is that of IPv4 in network byte order, the header fits, its IHL is at least 5 and
    -- its total length fits; and ports exactly if in addition the protocol is TCP or UDP and
    -- the ports fit behind the options, which count only when they fit themselves. Returning
    -- all chunks leaves nothing borrowed.
    pub get_headers_lem :
        (before : ℕ)
        → (s : Reading) × (get_headers layout bytes (packet_state_total_length size (fresh before))
            ≡ some (record { ipv4 = ipv4_at size; tcpudp = tcpudp_at size; reading = s }))
          × (s.read_length ≤ size)
          × (nf_return_all_chunks s ≡ fresh size)
    unfolding packet_state_total_length get_headers with_ether with_ipv4 with_tcpudp
        nf_then_get_rte_ether_header
    get_headers_lem before =
        let first = borrow_lem size 0 ether [] (omega arith) refl in
        let zero : 0 + ether ≡ ether = omega arith in
        let (read, chunks, e, within, rest) = ipv4_lem in
        elim (Bool-cases (is_ipv4 size)) [
          | inr no_ip ↦
              let no_header : ipv4_at size ≡ none = unfold ipv4_at in rw no_ip refl in
              let no_ports : tcpudp_at size ≡ none = unfold tcpudp_at in rw no_ip refl in
              (
                at size read chunks,
                rw (first, zero, e, no_header, no_ports) refl,
                within.0,
                within.1,
              )
          | inl ip ↦
              let header : ipv4_at size ≡ some ether = unfold ipv4_at in rw ip refl in
              let (place, few) = rest ip in
              let (s, f, within') = tcpudp_lem read chunks within place few ip in
              (s, rw (first, zero, e, header, f) refl, within'.0, within'.1)
        ]
