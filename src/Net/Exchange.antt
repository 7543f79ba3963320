-- ===== src/Net/Exchange.antt =====
-- net.c: a packet without a hardware address, and the ARP reply that follows.
use os_from_scratch_graphic.Prelude.{
  ℕ, ◌≡◌, ◌≢◌, ◌≤◌, ◌<◌, refl, ap, ◌∙◌, true, none, some, [], ◌∷◌, ◌++◌, arith, length, map, drop,
}
use os_from_scratch_graphic.Endian.{Bytes, ntohl, load32, load_bytes}
use os_from_scratch_graphic.Net.State.{Pending, Net}
use os_from_scratch_graphic.Net.Arp.{arp_lookup, arp_store, send_arp_request}
use os_from_scratch_graphic.Net.Cache.{lookup-arp_store}
use os_from_scratch_graphic.Net.Send.{
  buf_payload, next_hop, net_send_ip, ip_frame, waiting, enqueue, flush_pending_for_ip,
}
use os_from_scratch_graphic.Net.Rx.{arp_rx, is_arp_ipv4}
use os_from_scratch_graphic.Net.Waiting.{
  NoneFor, flush_loop-NoneFor, NoneFor-enqueue, cleared, frames_for, flush_pending_for_ip-frames,
  frames_for-enqueue, has_free, NoneFor-cleared, length-enqueue, AllFit-enqueue,
}

-- The memory behind the Ethernet header holds an ARP packet from the address and hardware address,
-- and the frame is long enough for it.
pub record ArpFrom (ip : ℕ) (mac a : Bytes) (len : ℕ) : Type 0 where
  pub types : is_arp_ipv4 a ≡ true
  pub sender : ntohl (load32 a 14) ≡ ip
  pub hardware : load_bytes 6 (drop 8 a) ≡ mac
  pub whole : 42 ≤ len

-- Such a packet is learned, and then the packets that wait for its sender are flushed.
arp_rx-ArpFrom :
    (n : Net) (ip : ℕ) (mac a : Bytes) (len : ℕ)
    → ip ≢ 0
    → ArpFrom ip mac a len
    → arp_rx n a len
      ≡ flush_pending_for_ip (record n { arp_cache = arp_store n.arp_cache ip mac }) ip
unfolding arp_rx
arp_rx-ArpFrom n ip mac a len h from =
    ground (arith, from.types, from.sender, from.hardware, from.whole)

-- Without the hardware address the packet waits, and the next hop is asked for its address.
net_send_ip-miss :
    (n : Net) (dst_ip proto : ℕ) (payload : Bytes) (len : ℕ)
    → arp_lookup n.arp_cache (next_hop n.netif dst_ip) ≡ none
    → net_send_ip n dst_ip proto payload len
      ≡ send_arp_request
          (record n { pending = enqueue n.pending (waiting dst_ip proto payload len) })
          (next_hop n.netif dst_ip)
unfolding net_send_ip
net_send_ip-miss n dst_ip proto payload len h = rw (h, net_send_ip)

lookup-learned :
    (n : Net) (ip : ℕ) (mac : Bytes)
    → 0 < length n.arp_cache
    → ip ≢ 0
    → arp_lookup (arp_store n.arp_cache ip mac) ip ≡ some mac
lookup-learned n ip mac room h = ground (arith, lookup-arp_store n.arp_cache ip ip mac room h)

-- A packet for an address behind the gateway, sent while the gateway's hardware address is unknown,
-- stays where it waits when the gateway answers: the answer is learned, and no frame is sent.
-- (The gateway is not 0, is not the destination itself, and nothing waits for it.)
pub gateway_reply_keeps_waiting :
    (n : Net) (dst_ip proto : ℕ) (payload mac a : Bytes) (len alen : ℕ)
    → next_hop n.netif dst_ip ≡ n.netif.gw_ip
    → dst_ip ≢ n.netif.gw_ip
    → n.netif.gw_ip ≢ 0
    → 0 < length n.arp_cache
    → arp_lookup n.arp_cache n.netif.gw_ip ≡ none
    → NoneFor n.netif.gw_ip n.pending
    → ArpFrom n.netif.gw_ip mac a alen
    → let asked = net_send_ip n dst_ip proto payload len in
      let answered = arp_rx asked a alen in
      (arp_lookup answered.arp_cache n.netif.gw_ip ≡ some mac)
      × (answered.pending ≡ enqueue n.pending (waiting dst_ip proto payload len))
      × (answered.sent ≡ asked.sent)
unfolding flush_pending_for_ip send_arp_request
gateway_reply_keeps_waiting n dst_ip proto payload mac a len alen off ne gw room unknown others
      from =
    ground (
      arith,
      net_send_ip-miss n dst_ip proto payload len (ap (arp_lookup n.arp_cache) off ∙ unknown),
      arp_rx-ArpFrom (net_send_ip n dst_ip proto payload len) n.netif.gw_ip mac a alen gw from,
      lookup-learned n n.netif.gw_ip mac room gw,
      flush_loop-NoneFor 8 0 n.netif.gw_ip
          (record (net_send_ip n dst_ip proto payload len) {
            arp_cache =
                arp_store (net_send_ip n dst_ip proto payload len).arp_cache n.netif.gw_ip mac;
          })
          gw,
      NoneFor-enqueue n.netif.gw_ip n.pending (waiting dst_ip proto payload len) ne others,
    )

-- A packet for an address on the link, sent while its hardware address is unknown and a slot is
-- free, goes out when the destination answers: as one frame to the answered hardware address, and
-- nothing waits for the destination any more. (The payload has at most 1480 bytes, which the frame has
-- room for; nothing else waits for the destination, and it is not 0.)
pub arp_reply_sends_waiting :
    (n : Net) (dst_ip proto : ℕ) (payload mac a : Bytes) (len alen : ℕ)
    → next_hop n.netif dst_ip ≡ dst_ip
    → dst_ip ≢ 0
    → 0 < length n.arp_cache
    → 8 ≡ length n.pending
    → arp_lookup n.arp_cache dst_ip ≡ none
    → NoneFor dst_ip n.pending
    → has_free n.pending ≡ true
    → ArpFrom dst_ip mac a alen
    → len ≤ buf_payload
    → let asked = net_send_ip n dst_ip proto payload len in
      let answered = arp_rx asked a alen in
      (answered.sent
        ≡ asked.sent ++ (ip_frame n.netif mac dst_ip proto (load_bytes len payload) len ∷ []))
      × NoneFor dst_ip answered.pending
unfolding send_arp_request
arp_reply_sends_waiting n dst_ip proto payload mac a len alen on h room eight unknown others free
      from fit =
    (
      ground (
        arith,
        flushed,
        frames_for-enqueue n.netif mac dst_ip n.pending packet refl others free,
        miss,
      ),
      rw flushed (NoneFor-cleared dst_ip asked.pending h),
    )
  where
    asked : Net
    asked = net_send_ip n dst_ip proto payload len

    packet : Pending
    packet = waiting dst_ip proto payload len

    learned : Net
    learned = record asked { arp_cache = arp_store asked.arp_cache dst_ip mac }

    miss : asked ≡ send_arp_request (record n { pending = enqueue n.pending packet }) dst_ip
    miss =
        net_send_ip-miss n dst_ip proto payload len (rw on unknown)
        ∙ ap (send_arp_request (record n { pending = enqueue n.pending packet })) on

    flushed : arp_rx asked a alen ≡ record learned {
      pending = map (cleared dst_ip) learned.pending;
      sent = learned.sent ++ frames_for learned.netif mac dst_ip learned.pending;
    }
    flushed =
        arp_rx-ArpFrom asked dst_ip mac a alen h from
        ∙ flush_pending_for_ip-frames learned dst_ip mac
            (ground (arith, miss, on, lookup-learned n dst_ip mac room h))
            (ground (arith, miss, length-enqueue n.pending packet))
            (ground (arith, miss, AllFit-enqueue dst_ip n.pending packet (ground arith) others))
