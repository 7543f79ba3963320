-- ===== src/Net/Rx.antt =====
-- net.c: the receive path, from a frame of the network card to the ARP cache, DNS and TCP.
use os_from_scratch_graphic.Prelude.{
  ℕ, ◌+◌, ◌-◌, ◌*◌, ◌/◌, ◌%◌, ◌&&◌, Bool, not, List, [], ◌∷◌, drop, ltb, ◌==◌, if◌then◌else◌,
}
use os_from_scratch_graphic.Endian.{Bytes, byte, ntohs, ntohl, load16, load32, load_bytes}
use os_from_scratch_graphic.Net.State.{Net}
use os_from_scratch_graphic.Net.Arp.{arp_store, eth_type_arp, eth_type_ip}
use os_from_scratch_graphic.Net.Send.{flush_pending_for_ip, ip_proto_udp, ip_proto_tcp}
use os_from_scratch_graphic.Tcp.Rx.{tcp_on_rx}
use os_from_scratch_graphic.Dns.Query.{Stack}
use os_from_scratch_graphic.Dns.Response.{dns_on_response}

-- A call of `udp_on_datagram`: the sender's address and port, the memory at the payload, and the
-- length. What the weak callback or its override draws is no part of the stack.
pub record Datagram : Type 0 where
  pub src_ip : ℕ
  pub src_port : ℕ
  pub payload : Bytes
  pub len : ℕ

-- The ARP packet has the types and sizes of IPv4 over Ethernet.
abbrev pub is_arp_ipv4 : Bytes → Bool
is_arp_ipv4 a =
    (ntohs (load16 a 0) == 1)
    && (ntohs (load16 a 2) == 0x0800)
    && (byte a 4 == 6)
    && (byte a 5 == 4)

-- The part of `net_rx` for ARP, with the memory behind the Ethernet header. Any ARP packet, request
-- or reply, teaches the sender's address.
unfoldable pub arp_rx : Net → Bytes → ℕ → Net
arp_rx n a len =
    let spa = ntohl (load32 a 14) in
    let learned =
      flush_pending_for_ip
        (record n { arp_cache = arp_store n.arp_cache spa (load_bytes 6 (drop 8 a)) }) spa in
    if ltb len (14 + 28) then n else if is_arp_ipv4 a then (if spa == 0 then n else learned) else n

-- The part for UDP, with the memory at the UDP header and the length that IP gives.
unfoldable pub udp_rx : Stack → ℕ → Bytes → ℕ → Stack × List Datagram
udp_rx s src_ip pl pl_len =
    let src_port = ntohs (load16 pl 0) in
    let d : Datagram = record {
      src_ip = src_ip;
      src_port = src_port;
      payload = drop 8 pl;
      len = pl_len - 8;
    } in
    let answered = record s { dns = dns_on_response s.dns (drop 8 pl) (pl_len - 8) } in
    if ltb pl_len 8 then (s, []) else if src_port == 53 then (answered, d ∷ []) else (s, d ∷ [])

-- The part for TCP.
unfoldable pub tcp_rx : Stack → ℕ → Bytes → ℕ → Stack
tcp_rx s src_ip pl pl_len =
    if ltb pl_len 20 then s else record s { host = tcp_on_rx s.host pl pl_len src_ip }

-- `(ip->ver_ihl & 0xF)*4`
abbrev pub ihl_of : Bytes → ℕ
ihl_of ip = byte ip 0 % 16 * 4

-- The part for IPv4, with the memory behind the Ethernet header. The length of the payload is the
-- one that the packet states; it is not compared with the frame's.
unfoldable pub ip_rx : Stack → Bytes → ℕ → Stack × List Datagram
ip_rx s ip len =
    let ihl = ihl_of ip in
    let tot_len = ntohs (load16 ip 2) in
    let pl = drop ihl ip in
    let src_ip = ntohl (load32 ip 12) in
    if ltb len (14 + 20)
    then (s, [])
    else if not (byte ip 0 / 16 == 4)
    then (s, [])
    else if ltb len (14 + ihl)
    then (s, [])
    else if ltb tot_len ihl
    then (s, [])
    else if byte ip 9 == ip_proto_udp
    then udp_rx s src_ip pl (tot_len - ihl)
    else if byte ip 9 == ip_proto_tcp
    then (tcp_rx s src_ip pl (tot_len - ihl), [])
    else (s, [])

-- `net_rx`, with the memory from the frame on and the length that the card gives.
unfoldable pub net_rx : Stack → Bytes → ℕ → Stack × List Datagram
net_rx s frame len =
    let type = ntohs (load16 frame 12) in
    if ltb len 14
    then (s, [])
    else if type == eth_type_arp
    then (record s { host = record (s.host) { net = arp_rx s.host.net (drop 14 frame) len } }, [])
    else if type == eth_type_ip
    then ip_rx s (drop 14 frame) len
    else (s, [])
