-- ===== src/Net/Tests.antt =====
-- net.c on a concrete interface, with the addresses that kernel.c sets.
use os_from_scratch_graphic.Prelude.{
  ℕ, ◌+◌, ◌*◌, ◌^◌, ◌≡◌, ◌≢◌, refl, none, some, List, [], ◌∷◌, ◌++◌, arith, length, map, replicate,
}
use os_from_scratch_graphic.Endian.{Bytes, ntohs, ntohl}
use os_from_scratch_graphic.Net.State.{
  Net, NetIf, Pending, boot, empty_pending, empty_entry, nic_tx,
}
use os_from_scratch_graphic.Net.Arp.{arp_lookup}
use os_from_scratch_graphic.Net.Send.{
  next_hop, net_send_ip, net_send_udp_ipv4, ip_frame, waiting, enqueue, flush_pending_for_ip,
}
use os_from_scratch_graphic.Net.Rx.{arp_rx, net_rx}
use os_from_scratch_graphic.Net.RoundTrip.{net_rx-net_send_udp_ipv4}
use os_from_scratch_graphic.Net.Waiting.{NoneFor, cleared, frames_for, flush_pending_for_ip-frames}
use os_from_scratch_graphic.Net.Exchange.{
  ArpFrom, arp_reply_sends_waiting, gateway_reply_keeps_waiting,
}
use os_from_scratch_graphic.Dns.Query as Query

abbrev ip4 : ℕ → ℕ → ℕ → ℕ → ℕ
ip4 a b c d = a * 2 ^ 24 + b * 2 ^ 16 + c * 2 ^ 8 + d

abbrev own_mac : Bytes
own_mac = 2 ∷ 0 ∷ 0 ∷ 0 ∷ 0 ∷ 1 ∷ []

abbrev gw_mac : Bytes
gw_mac = 2 ∷ 0 ∷ 0 ∷ 0 ∷ 0 ∷ 2 ∷ []

abbrev netif : NetIf
netif = record {
  mac = own_mac;
  ip = ip4 10 0 2 15;
  gw_ip = ip4 10 0 2 2;
  netmask = ip4 255 255 255 0;
}

abbrev net : Net
net = record boot { netif = netif }

-- The same with the gateway's address known.
abbrev warm : Net
warm = record net {
  arp_cache = record { ip = ip4 10 0 2 2; mac = gw_mac } ∷ replicate 7 empty_entry;
}

abbrev host : ℕ
host = ip4 192 168 31 235

abbrev hello : Bytes
hello = 104 ∷ 105 ∷ []

-- An ARP reply behind its Ethernet header: from the gateway, or from 10.0.2.3.
abbrev reply_from : ℕ → Bytes
reply_from last =
    0 ∷ 1 ∷ 8 ∷ 0 ∷ 6 ∷ 4 ∷ 0 ∷ 2 ∷ gw_mac
    ++ (10 ∷ 0 ∷ 2 ∷ last ∷ own_mac ++ (10 ∷ 0 ∷ 2 ∷ 15 ∷ []))

reply-ArpFrom : ArpFrom (ip4 10 0 2 2) gw_mac (reply_from 2) 42
unfolding ntohs ntohl
reply-ArpFrom = record { types = refl; sender = refl; hardware = refl; whole = omega arith }

server-ArpFrom : ArpFrom (ip4 10 0 2 3) gw_mac (reply_from 3) 42
unfolding ntohs ntohl
server-ArpFrom = record { types = refl; sender = refl; hardware = refl; whole = omega arith }

hop_off_link : next_hop netif host ≡ ip4 10 0 2 2
unfolding next_hop
hop_off_link = refl

hop_on_link : next_hop netif (ip4 10 0 2 3) ≡ ip4 10 0 2 3
unfolding next_hop
hop_on_link = refl

warm_hit : arp_lookup warm.arp_cache (next_hop netif host) ≡ some gw_mac
unfolding arp_lookup next_hop
warm_hit = refl

cold_miss : (ip : ℕ) → ip ≢ 0 → arp_lookup net.arp_cache ip ≡ none
unfolding arp_lookup
cold_miss ip h = ground arith

net_rx-net_send_udp_ipv4_example :
    (frame : Bytes) × (net_send_udp_ipv4 warm host 6000 6001 hello 2 ≡ nic_tx warm frame)
    × (net_rx Query.boot frame (length frame) ≡ (
      Query.boot,
      record { src_ip = ip4 10 0 2 15; src_port = 6001; payload = hello; len = 2 } ∷ [],
    ))
net_rx-net_send_udp_ipv4_example =
    net_rx-net_send_udp_ipv4 warm Query.boot gw_mac host 6000 6001 hello 2 warm_hit (refl, refl)
      (omega arith) (omega arith) (omega arith) (omega arith)

-- Two packets for the gateway wait, and one for another address.
abbrev queue : List Pending
queue =
    waiting (ip4 10 0 2 2) 17 hello 2
    ∷ waiting (ip4 10 0 2 3) 17 hello 1
    ∷ waiting (ip4 10 0 2 2) 6 hello 1
    ∷ replicate 5 empty_pending

gateway_hit : arp_lookup warm.arp_cache (next_hop netif (ip4 10 0 2 2)) ≡ some gw_mac
unfolding arp_lookup next_hop
gateway_hit = refl

flush_pending_for_ip-frames_example :
    flush_pending_for_ip (record warm { pending = queue }) (ip4 10 0 2 2) ≡ record warm {
      pending = map (cleared (ip4 10 0 2 2)) queue;
      sent = [] ++ frames_for netif gw_mac (ip4 10 0 2 2) queue;
    }
flush_pending_for_ip-frames_example =
    flush_pending_for_ip-frames (record warm { pending = queue }) (ip4 10 0 2 2) gw_mac gateway_hit
      refl (ground arith)

arp_reply_sends_waiting_example :
    let asked = net_send_ip net (ip4 10 0 2 3) 17 hello 2 in
    let answered = arp_rx asked (reply_from 3) 42 in
    (answered.sent ≡ asked.sent ++ (ip_frame netif gw_mac (ip4 10 0 2 3) 17 hello 2 ∷ []))
    × NoneFor (ip4 10 0 2 3) answered.pending
arp_reply_sends_waiting_example =
    arp_reply_sends_waiting net (ip4 10 0 2 3) 17 hello gw_mac (reply_from 3) 2 42 hop_on_link
      (omega arith) (omega arith) refl (cold_miss (ip4 10 0 2 3) (omega arith)) (omega arith) refl
      server-ArpFrom (omega arith)

-- The packet for 192.168.31.235 waits on when the gateway has answered.
gateway_reply_keeps_waiting_example :
    let asked = net_send_ip net host 17 hello 2 in
    let answered = arp_rx asked (reply_from 2) 42 in
    (arp_lookup answered.arp_cache (ip4 10 0 2 2) ≡ some gw_mac)
    × (answered.pending ≡ enqueue net.pending (waiting host 17 hello 2))
    × (answered.sent ≡ asked.sent)
gateway_reply_keeps_waiting_example =
    gateway_reply_keeps_waiting net host 17 hello gw_mac (reply_from 2) 2 42 hop_off_link
      (omega arith) (omega arith) (omega arith) (cold_miss (ip4 10 0 2 2) (omega arith))
      (omega arith) reply-ArpFrom
