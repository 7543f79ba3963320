-- ===== src/Tcp/Segment.antt =====
-- tcp.c: the checksum, the header, and the segment that is handed to the IP layer.
use os_from_scratch_graphic.Prelude.{ℕ, ◌+◌, ◌-◌, ◌*◌, ◌%◌, ◌^◌, ◌∷◌, ◌++◌, ltb, if◌then◌else◌}
use os_from_scratch_graphic.Endian.{
  Bytes, htons, htonl, le16, le32, load_bytes, sum_words, fold, fold_rounds,
}
use os_from_scratch_graphic.Net.State.{overran}
use os_from_scratch_graphic.Net.Send.{net_send_ip}
use os_from_scratch_graphic.Tcp.State.{Socket, Host}

-- `csum16`, a second copy of the checksum loop.
unfoldable pub csum16 : Bytes → ℕ
csum16 m = 2 ^ 16 - 1 - fold fold_rounds (sum_words m 0) % 2 ^ 16

-- `tcp_hdr_t` up to the window, the fields in front of the checksum.
abbrev pub header_front : Socket → ℕ → Bytes
header_front s flags =
    le16 (htons s.local_port)
    ++ (le16 (htons s.remote_port)
        ++ (le32 (htonl s.snd_nxt)
            ++ (le32 (htonl s.rcv_nxt) ++ (5 * 16 ∷ flags ∷ le16 (htons 4096)))))

-- `tcp_hdr_t` with the given checksum field, and the payload behind it.
abbrev pub tcp_block : Socket → ℕ → ℕ → Bytes → Bytes
tcp_block s flags chksum body = header_front s flags ++ (le16 chksum ++ (0 ∷ 0 ∷ body))

-- `pseudo_t`
abbrev pub pseudo : Socket → ℕ → Bytes
pseudo s plen =
    le32 (htonl s.local_ip)
    ++ (le32 (htonl s.remote_ip) ++ (0 ∷ 6 ∷ le16 (htons ((20 + plen) % 2 ^ 16))))

-- The segment with its checksum, for a payload that has room in `buf[60 + 1460]` and in the block of
-- 12 + 20 + 1460 bytes into which the pseudo header and the segment are copied to sum them.
unfoldable pub tcp_segment : Socket → ℕ → Bytes → ℕ → Bytes
tcp_segment s flags payload plen =
    let body = load_bytes plen payload in
    tcp_block s flags (csum16 (pseudo s plen ++ tcp_block s flags 0 body)) body

-- The payload of a segment that has room in `csumblk`.
abbrev pub csumblk_payload : ℕ
csumblk_payload = 1460

-- No length is tested: behind 1460 bytes the copy into `csumblk` overruns it.
unfoldable pub tcp_send_segment : Host → ℕ → Bytes → ℕ → Host
tcp_send_segment h flags payload plen = record h {
  net =
      if ltb csumblk_payload plen
      then overran h.net
      else net_send_ip h.net h.sock.remote_ip 6 (tcp_segment h.sock flags payload plen) (20 + plen);
}
