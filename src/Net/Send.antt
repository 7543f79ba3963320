-- ===== src/Net/Send.antt =====
-- net.c: the send helpers, and the packets that wait for an ARP reply.
use os_from_scratch_graphic.Prelude.{
  ℕ, zero, suc, ◌+◌, ◌*◌, ◌%◌, ◌^◌, none, some, List, [], ◌∷◌, ◌++◌, get_or, set, bit_and, bit_xor,
  ltb, ◌==◌, if◌then◌else◌,
}
use os_from_scratch_graphic.Endian.{Bytes, htons, htonl, le16, le32, load_bytes, ip_checksum}
use os_from_scratch_graphic.Net.State.{NetIf, Pending, Net, empty_pending, nic_tx, overran}
use os_from_scratch_graphic.Net.Arp.{arp_lookup, eth_header, eth_type_ip, send_arp_request}

-- `((dst_ip ^ g_netif.ip) & g_netif.netmask) != 0` sends by the gateway.
unfoldable pub next_hop : NetIf → ℕ → ℕ
next_hop netif dst_ip =
    if bit_and (bit_xor dst_ip netif.ip) netif.netmask == 0 then dst_ip else netif.gw_ip

abbrev pub max_payload : ℕ
max_payload = 1500

-- What goes into a slot of `pending`, a payload above the slot's size cut off.
abbrev pub waiting : ℕ → ℕ → Bytes → ℕ → Pending
waiting dst_ip proto payload payload_len =
    let len = if ltb max_payload payload_len then max_payload else payload_len in
    record { dst_ip = dst_ip; proto = proto; payload_len = len; payload = load_bytes len payload }

-- The loop takes the first free slot; with none free the packet is dropped.
unfoldable pub enqueue : List Pending → Pending → List Pending
enqueue [] p = []
enqueue (q ∷ queue) p = if q.dst_ip == 0 then p ∷ queue else q ∷ enqueue queue p

-- `struct ip_hdr` with the given checksum field.
abbrev pub ip_header : NetIf → ℕ → ℕ → ℕ → ℕ → Bytes
ip_header netif dst_ip proto payload_len chksum =
    0x45 ∷ 0 ∷ le16 (htons ((20 + payload_len) % 2 ^ 16))
    ++ (le16 (htons 1)
        ++ (0 ∷ 0 ∷ 64 ∷ proto ∷ le16 chksum ++ (le32 (htonl netif.ip) ++ le32 (htonl dst_ip))))

-- `ip->hdr_chksum = ip_checksum(ip, sizeof(*ip))`, over the header with a zero there.
abbrev pub sealed_header : NetIf → ℕ → ℕ → ℕ → Bytes
sealed_header netif dst_ip proto payload_len =
    ip_header netif dst_ip proto payload_len
      (ip_checksum (ip_header netif dst_ip proto payload_len 0))

-- `buf[14 + 20 + 1480]`, and `seg[8 + 1472]` of a datagram.
abbrev pub buf_payload : ℕ
buf_payload = 1480

abbrev pub seg_payload : ℕ
seg_payload = 1472

-- The frame that is built in `buf`, for a payload that has room there.
unfoldable pub ip_frame : NetIf → Bytes → ℕ → ℕ → Bytes → ℕ → Bytes
ip_frame netif dst_mac dst_ip proto payload payload_len =
    eth_header dst_mac netif.mac eth_type_ip
    ++ (sealed_header netif dst_ip proto payload_len ++ load_bytes payload_len payload)

-- The payload is copied into `buf` with no test of its length: behind 1480 bytes the copy overruns.
unfoldable pub net_send_ip : Net → ℕ → ℕ → Bytes → ℕ → Net
net_send_ip n dst_ip proto payload payload_len =
    let hop = next_hop n.netif dst_ip in
    elim (arp_lookup n.arp_cache hop) [
      | none ↦
          send_arp_request
            (record n { pending = enqueue n.pending (waiting dst_ip proto payload payload_len) })
            hop
      | some dst_mac ↦
          if ltb buf_payload payload_len
          then overran n
          else nic_tx n (ip_frame n.netif dst_mac dst_ip proto payload payload_len)
    ]

-- One round of `flush_pending_for_ip`: the packet is sent, and its slot cleared.
unfoldable pub flush_slot : ℕ → ℕ → Net → Net
flush_slot i ip n =
    let p = get_or n.pending i empty_pending in
    let n' = net_send_ip n p.dst_ip p.proto p.payload p.payload_len in
    let q = get_or n'.pending i empty_pending in
    if p.dst_ip == ip
    then record n' { pending = set n'.pending i (record q { dst_ip = 0; payload_len = 0 }) }
    else n

-- `for (int i=0;i<8;i++)`, with the rounds left.
unfoldable pub flush_loop : ℕ → ℕ → ℕ → Net → Net
flush_loop zero i ip n = n
flush_loop (suc rounds) i ip n = flush_loop rounds (i + 1) ip (flush_slot i ip n)

unfoldable pub flush_pending_for_ip : Net → ℕ → Net
flush_pending_for_ip n ip = flush_loop 8 0 ip n

abbrev pub ip_proto_udp : ℕ
ip_proto_udp = 17

abbrev pub ip_proto_tcp : ℕ
ip_proto_tcp = 6

-- The UDP segment: ports, length, a zero checksum, and the payload, which has room in `seg`.
unfoldable pub udp_segment : ℕ → ℕ → Bytes → ℕ → Bytes
udp_segment dst_port src_port payload len =
    le16 (htons src_port)
    ++ (le16 (htons dst_port)
        ++ (le16 (htons ((8 + len) % 2 ^ 16)) ++ (0 ∷ 0 ∷ load_bytes len payload)))

-- The payload is copied into `seg` with no test of its length.
unfoldable pub net_send_udp_ipv4 : Net → ℕ → ℕ → ℕ → Bytes → ℕ → Net
net_send_udp_ipv4 n dst_ip dst_port src_port payload len =
    if ltb seg_payload len
    then overran n
    else net_send_ip n dst_ip ip_proto_udp (udp_segment dst_port src_port payload len) (8 + len)

unfoldable pub net_send_tcp_syn : Net → ℕ → ℕ → ℕ → ℕ → Net
net_send_tcp_syn n dst_ip dst_port src_port seq = net_send_ip n dst_ip ip_proto_tcp seg 20
  where
    seg : Bytes
    seg =
        le16 (htons src_port)
        ++ (le16 (htons dst_port)
            ++ (le32 (htonl seq)
                ++ (le32 0 ++ (5 * 16 ∷ 0x02 ∷ le16 (htons 65535) ++ (le16 0 ++ le16 0)))))
