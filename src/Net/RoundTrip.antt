-- ===== src/Net/RoundTrip.antt =====
-- net.c: what one stack sends as an IPv4 frame, another takes apart again.
use os_from_scratch_graphic.Prelude.{
  ℕ, zero, suc, ◌≢◌, some, ◌+◌, ◌%◌, ◌^◌, ◌≡◌, ◌<◌, ◌≤◌, refl, ◌∙◌, ap, List, [], ◌∷◌, ◌++◌, arith,
  length, length-append, drop, ◌==◌, if◌then◌else◌,
}
use os_from_scratch_graphic.Endian.{
  Bytes, byte, load16, load32, load_bytes, le16, le32, htons, htonl, ntohs, ntohl,
}
use os_from_scratch_graphic.Endian.Layout.{
  byte-append_left, byte-append_right, drop-append, length-load_bytes,
}
use os_from_scratch_graphic.Net.State.{NetIf, Net, nic_tx}
use os_from_scratch_graphic.Net.Arp.{arp_lookup, eth_header, eth_type_ip}
use os_from_scratch_graphic.Net.Send.{
  net_send_ip, next_hop, net_send_udp_ipv4, ip_frame, sealed_header, ip_proto_udp, ip_proto_tcp,
  udp_segment, buf_payload, seg_payload,
}
use os_from_scratch_graphic.Net.Rx.{Datagram, net_rx, ip_rx, udp_rx, tcp_rx}
use os_from_scratch_graphic.Dns.Query.{Stack}

module _ (dst src : Bytes) (type : ℕ) (m : Bytes) (six : (length dst ≡ 6) × (length src ≡ 6)) where
  length-eth_header : length (eth_header dst src type) ≡ 14
  length-eth_header = omega (
    arith,
    length-append dst (src ++ le16 (htons type)),
    length-append src (le16 (htons type)),
    six,
  )

  drop-eth_header : drop 14 (eth_header dst src type ++ m) ≡ m
  drop-eth_header = drop-append (eth_header dst src type) m 14 (omega (arith, length-eth_header))

  byte-eth_header :
      (i : ℕ) → i < 2 → byte (eth_header dst src type ++ m) (12 + i) ≡ byte (le16 (htons type)) i
  byte-eth_header i h =
      byte-append_left (eth_header dst src type) m (12 + i) (omega (arith, length-eth_header))
      ∙ (byte-append_right dst (src ++ le16 (htons type)) (6 + i) (12 + i) (omega (arith, six))
          ∙ byte-append_right src (le16 (htons type)) i (6 + i) (omega (arith, six)))

  type-eth_header : type < 2 ^ 16 → ntohs (load16 (eth_header dst src type ++ m) 12) ≡ type
  unfolding ntohs
  type-eth_header h =
      omega (arith, byte-eth_header 0 (omega arith), byte-eth_header 1 (omega arith))

-- What the receive path does with the payload of a packet.
abbrev pub deliver : Stack → ℕ → ℕ → Bytes → ℕ → Stack × List Datagram
deliver s src_ip proto payload len =
    if proto == ip_proto_udp
    then udp_rx s src_ip payload len
    else if proto == ip_proto_tcp
    then (tcp_rx s src_ip payload len, [])
    else (s, [])

ntohs-load16 : (x : ℕ) → x < 2 ^ 16 → ntohs (load16 (le16 (htons (x % 2 ^ 16))) 0) ≡ x
unfolding ntohs
ntohs-load16 x h = omega arith

ntohl-load32 : (x : ℕ) → x < 2 ^ 32 → ntohl (load32 (le32 (htonl x)) 0) ≡ x
unfolding ntohl
ntohl-load32 x h = omega arith

-- The receive path reads back the length, the source address and the payload of a sealed header.
ip_rx-sealed :
    (s : Stack) (netif : NetIf) (dst_ip proto : ℕ) (payload : Bytes) (len : ℕ)
    → netif.ip < 2 ^ 32
    → 20 + len < 2 ^ 16
    → ip_rx s (sealed_header netif dst_ip proto len ++ payload) (34 + len)
      ≡ deliver s netif.ip proto payload len
unfolding ip_rx
ip_rx-sealed s netif dst_ip proto payload len h short = ground (arith, tot, src)
  where
    ip : Bytes
    ip = sealed_header netif dst_ip proto len ++ payload

    tot : ntohs (load16 ip 2) ≡ 20 + len
    tot = ntohs-load16 (20 + len) short

    src : ntohl (load32 ip 12) ≡ netif.ip
    src = ntohl-load32 netif.ip h

length-ip_frame :
    (netif : NetIf) (mac : Bytes) (dst_ip proto : ℕ) (payload : Bytes) (len : ℕ)
    → (length mac ≡ 6) × (length netif.mac ≡ 6)
    → length (ip_frame netif mac dst_ip proto payload len) ≡ 34 + len
unfolding ip_frame
length-ip_frame netif mac dst_ip proto payload len six = omega (
  arith,
  length-append (eth_header mac netif.mac eth_type_ip)
      (sealed_header netif dst_ip proto len ++ load_bytes len payload),
  length-eth_header mac netif.mac eth_type_ip [] six,
  length-load_bytes len payload,
)

-- A frame that net_send_ip builds, received by another stack, reaches its UDP or TCP part with the
-- sender's address, the payload and its length: no header byte is lost or taken for payload.
pub net_rx-ip_frame :
    (s : Stack) (netif : NetIf) (mac : Bytes) (dst_ip proto : ℕ) (payload : Bytes) (len : ℕ)
    → (length mac ≡ 6) × (length netif.mac ≡ 6)
    → netif.ip < 2 ^ 32
    → 20 + len < 2 ^ 16
    → let frame = ip_frame netif mac dst_ip proto payload len in
      net_rx s frame (length frame) ≡ deliver s netif.ip proto (load_bytes len payload) len
unfolding net_rx ip_frame
net_rx-ip_frame s netif mac dst_ip proto payload len six h short = ground (
  arith,
  length-ip_frame netif mac dst_ip proto payload len six,
  type-eth_header mac netif.mac eth_type_ip
      (sealed_header netif dst_ip proto len ++ load_bytes len payload) six,
  drop-eth_header mac netif.mac eth_type_ip
      (sealed_header netif dst_ip proto len ++ load_bytes len payload) six,
  ip_rx-sealed s netif dst_ip proto (load_bytes len payload) len h short,
)

pub net_send_ip-hit :
    (n : Net) (mac : Bytes) (dst_ip proto : ℕ) (payload : Bytes) (len : ℕ)
    → arp_lookup n.arp_cache (next_hop n.netif dst_ip) ≡ some mac
    → len ≤ buf_payload
    → net_send_ip n dst_ip proto payload len
      ≡ nic_tx n (ip_frame n.netif mac dst_ip proto payload len)
unfolding net_send_ip
net_send_ip-hit n mac dst_ip proto payload len h room = ground (arith, h)

length-udp_segment :
    (dst_port src_port : ℕ) (payload : Bytes) (len : ℕ)
    → 8 + len ≡ length (udp_segment dst_port src_port payload len)
unfolding udp_segment
length-udp_segment dst_port src_port payload len = omega (arith, length-load_bytes len payload)

load_bytes-length : (m : Bytes) (k : ℕ) → k ≡ length m → load_bytes k m ≡ m
load_bytes-length [] zero h = refl
load_bytes-length [] (suc k) h = absurd (omega arith)
load_bytes-length (b ∷ m) zero h = absurd (omega arith)
load_bytes-length (b ∷ m) (suc k) h = ap (λ r. b ∷ r) (load_bytes-length m k (omega arith))

udp_rx-segment :
    (s : Stack) (src_ip dst_port src_port : ℕ) (payload : Bytes) (len : ℕ)
    → src_port < 2 ^ 16
    → src_port ≢ 53
    → udp_rx s src_ip (udp_segment dst_port src_port payload len) (8 + len) ≡ (
      s,
      record { src_ip = src_ip; src_port = src_port; payload = load_bytes len payload; len = len }
          ∷ [],
    )
unfolding udp_rx udp_segment
udp_rx-segment s src_ip dst_port src_port payload len h ne = ground (arith, ntohs-load16 src_port h)

-- A datagram sent by net_send_udp_ipv4 while the next hop's hardware address is known goes out as
-- one frame, and a stack that receives the frame hands the datagram, with the sender's address and
-- port, the payload and its length, to `udp_on_datagram` once, and changes no other state. The
-- source port is not that of DNS, and the payload has at most 1472 bytes, the room of the buffer.
pub net_rx-net_send_udp_ipv4 :
    (n : Net) (s : Stack) (mac : Bytes) (dst_ip dst_port src_port : ℕ) (payload : Bytes) (len : ℕ)
    → arp_lookup n.arp_cache (next_hop n.netif dst_ip) ≡ some mac
    → (length mac ≡ 6) × (length n.netif.mac ≡ 6)
    → n.netif.ip < 2 ^ 32
    → src_port < 2 ^ 16
    → src_port ≢ 53
    → len ≤ seg_payload
    → (frame : Bytes) × (net_send_udp_ipv4 n dst_ip dst_port src_port payload len ≡ nic_tx n frame)
      × (net_rx s frame (length frame) ≡ (
        s,
        record {
          src_ip = n.netif.ip;
          src_port = src_port;
          payload = load_bytes len payload;
          len = len;
        }
            ∷ [],
      ))
unfolding net_send_udp_ipv4
net_rx-net_send_udp_ipv4 n s mac dst_ip dst_port src_port payload len hit six ip port ne short = (
  ip_frame n.netif mac dst_ip ip_proto_udp seg (8 + len),
  ground (arith, net_send_ip-hit n mac dst_ip ip_proto_udp seg (8 + len) hit),
  net_rx-ip_frame s n.netif mac dst_ip ip_proto_udp seg (8 + len) six ip (omega arith)
      ∙ (ap (λ m. udp_rx s n.netif.ip m (8 + len))
            (load_bytes-length seg (8 + len) (length-udp_segment dst_port src_port payload len))
          ∙ udp_rx-segment s n.netif.ip dst_port src_port payload len port ne),
)
  where
    seg : Bytes
    seg = udp_segment dst_port src_port payload len
