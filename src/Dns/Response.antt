-- ===== src/Dns/Response.antt =====
-- dns.c: the response parser.
use os_from_scratch_graphic.Prelude.{
  ℕ, zero, suc, ◌+◌, ◌*◌, ◌/◌, ◌^◌, Bool, true, false, ◌&&◌, Option, none, some, List, ltb, ◌==◌,
  if◌then◌else◌,
}
use os_from_scratch_graphic.Endian.{Bytes, byte}
use os_from_scratch_graphic.Dns.Cache.{Dns, DnsEntry, dns_cache_store, qtrack_getname, qtrack_clear}

-- `(data[off]<<8)|data[off+1]`
abbrev pub be16_at : Bytes → ℕ → ℕ
be16_at m off = byte m off * 256 + byte m (off + 1)

-- `(data[off]<<24)|...|data[off+3]`
abbrev pub be32_at : Bytes → ℕ → ℕ
be32_at m off =
    byte m off * 2 ^ 24 + byte m (off + 1) * 2 ^ 16 + byte m (off + 2) * 2 ^ 8 + byte m (off + 3)

-- `while (off < len && data[off] != 0) off += 1 + data[off];`. Each round moves on, so `len` rounds
-- are enough from any offset (`skip_labels_fuel` in Dns/Names).
unfoldable pub skip_labels : ℕ → Bytes → ℕ → ℕ → ℕ
skip_labels zero m len off = off
skip_labels (suc fuel) m len off =
    let rest = skip_labels fuel m len (off + (1 + byte m off)) in
    if ltb off len then (if byte m off == 0 then off else rest) else off

-- The question loop; `none` is a return from the handler.
unfoldable pub skip_questions : ℕ → Bytes → ℕ → ℕ → Option ℕ
skip_questions zero m len off = some off
skip_questions (suc qs) m len off =
    let end = skip_labels len m len off + 1 in
    let rest = skip_questions qs m len (end + 4) in if ltb len (end + 4) then none else rest

-- The name in front of an answer: a pointer of two bytes, or labels.
unfoldable pub skip_name : Bytes → ℕ → ℕ → ℕ
skip_name m len off = if byte m off / 64 == 3 then off + 2 else skip_labels len m len off + 1

-- An address record of the Internet class, for a name that was asked for.
abbrev pub store_answer : List DnsEntry → Option Bytes → Bytes → ℕ → List DnsEntry
store_answer cache none m off = cache
store_answer cache (some name) m off =
    if be16_at m off == 1 && (be16_at m (off + 2) == 1) && (be16_at m (off + 8) == 4)
    then dns_cache_store cache name (be32_at m (off + 10))
    else cache

-- The answer loop: the cache when it ends, and whether it ran through; a return from the handler
-- leaves what was stored before.
unfoldable pub read_answers :
    ℕ → List DnsEntry → Option Bytes → Bytes → ℕ → ℕ → List DnsEntry × Bool
read_answers zero cache name m len off = (cache, true)
read_answers (suc count) cache name m len off =
    let at = skip_name m len off in
    let next = at + 10 + be16_at m (at + 8) in
    let rest = read_answers count (store_answer cache name m at) name m len next in
    if ltb len (off + 12)
    then (cache, false)
    else if ltb len (at + 10)
    then (cache, false)
    else if ltb len next
    then (cache, false)
    else rest

-- `dns_on_response`, with the bytes behind the UDP header and the length that IP gives.
unfoldable pub dns_on_response : Dns → Bytes → ℕ → Dns
dns_on_response d m len =
    let id = be16_at m 0 in
    if ltb len 12 then d else elim (skip_questions (be16_at m 4) m len 12) [
      | none ↦ d
      | some off ↦
          let (cache, done) =
            read_answers (be16_at m 6) d.cache (qtrack_getname d.qtracks id) m len off in
          if done
          then record d { cache = cache; qtracks = qtrack_clear d.qtracks id }
          else record d { cache = cache }
    ]
