-- ===== src/Dns/Query.antt =====
-- dns.c: the query packet.
use os_from_scratch_graphic.Prelude.{
  ℕ, zero, suc, ◌+◌, ◌-◌, ◌*◌, ◌/◌, ◌%◌, ◌^◌, ◌||◌, Bool, Option, none, some, [], ◌∷◌, ◌++◌, length,
  drop, ltb, leb, ◌==◌, if◌then◌else◌,
}
use os_from_scratch_graphic.Endian.{Bytes, byte, load_bytes}
use os_from_scratch_graphic.Text.{strlen, strchr}
use os_from_scratch_graphic.Net.Send.{net_send_udp_ipv4}
use os_from_scratch_graphic.Tcp.State as HostState
use os_from_scratch_graphic.Tcp.State.{Host}
use os_from_scratch_graphic.Dns.Cache
use os_from_scratch_graphic.Dns.Cache.{Dns, dns_get_cached, qtrack_add}

-- The end of `pack_name`: the null terminator, if it fits.
abbrev pub end_name : Bytes → ℕ → Option Bytes
end_name out cap = if leb cap (length out) then none else some (out ++ (0 ∷ []))

-- The length of the label at `p`, up to the dot or the end.
abbrev pub label_len : Bytes → ℕ
label_len p = elim (strchr p b'.') [ some dot ↦ dot | none ↦ strlen p ]

-- The loop of `pack_name` with `out` written so far; a `none` is the return of -1. Each round but
-- the last passes a dot, so one round more than there are bytes is enough (`Dns/Names`).
unfoldable pub pack_loop : ℕ → Bytes → Bytes → ℕ → Option Bytes
pack_loop zero p out cap = none
pack_loop (suc fuel) p out cap =
    let len = label_len p in
    let out' = out ++ (len ∷ load_bytes len p) in
    let rest = pack_loop fuel (drop (len + 1) p) out' cap in
    if byte p 0 == 0 || leb cap (length out)
    then end_name out cap
    else if len == 0 || ltb 63 len
    then none
    else if leb cap (length out + 1 + len)
    then none
    else elim (strchr p b'.') [ none ↦ end_name out' cap | some dot ↦ rest ]

unfoldable pub pack_name : Bytes → ℕ → Option Bytes
pack_name name cap = pack_loop (suc (length name)) name [] cap

-- The twelve bytes of the header: the id, the flag RD, one question.
abbrev pub query_header : ℕ → Bytes
query_header id = id / 256 ∷ id % 256 ∷ 1 ∷ 0 ∷ 0 ∷ 1 ∷ 0 ∷ 0 ∷ 0 ∷ 0 ∷ 0 ∷ 0 ∷ []

-- Type A, class IN. The code writes these four bytes with no test of `buf`'s 512.
abbrev pub query_packet : ℕ → Bytes → Bytes
query_packet id packed = query_header id ++ (packed ++ (0 ∷ 1 ∷ 0 ∷ 1 ∷ []))

-- 10.0.2.3
abbrev pub dns_ip : ℕ
dns_ip = 10 * 2 ^ 24 + 2 * 2 ^ 8 + 3

-- The network stack: the globals of dns.c over those of tcp.c and net.c.
pub record Stack : Type 0 where
  pub host : Host
  pub dns : Dns

abbrev pub query_bytes : ℕ
query_bytes = 512 - 12

-- `dns_query_async`, with what it returns as a truth value.
unfoldable pub dns_query_async : Stack → Bytes → Bool × Stack
dns_query_async r name =
    let id = (r.dns.qid_counter + 1) % 2 ^ 16 in
    elim (dns_get_cached r.dns.cache name) [
      | some ip ↦ (Bool.true, r)
      | none ↦ elim (pack_name name query_bytes) [
        | none ↦ (Bool.false, record r { dns = record (r.dns) { qid_counter = id } })
        | some packed ↦ (
          Bool.true,
          record {
            host = record (r.host) {
              net =
                  net_send_udp_ipv4 r.host.net dns_ip 53 50000 (query_packet id packed)
                    (length (query_packet id packed));
            };
            dns = record (r.dns) { qid_counter = id; qtracks = qtrack_add r.dns.qtracks id name };
          },
        )
      ]
    ]

abbrev pub boot : Stack
boot = record { host = HostState.boot; dns = Cache.boot }
