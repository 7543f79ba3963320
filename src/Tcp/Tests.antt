-- ===== src/Tcp/Tests.antt =====
-- tcp.c on a concrete connection.
use os_from_scratch_graphic.Prelude.{
  ℕ, ◌+◌, ◌*◌, ◌%◌, ◌^◌, ◌&&◌, ◌==◌, ◌≡◌, ◌≤◌, ◌<◌, refl, false, true, List, [], ◌∷◌, ◌++◌, arith,
  length, if◌then◌else◌,
}
use os_from_scratch_graphic.Prelude.Int.{pos}
use os_from_scratch_graphic.Endian.{Bytes, ntohs, htons, ntohl, load32, load_bytes}
use os_from_scratch_graphic.Net.Send.{net_send_ip}
use os_from_scratch_graphic.Tcp.State.{Host, boot, closed, syn_sent, established}
use os_from_scratch_graphic.Tcp.Segment.{csum16, pseudo, tcp_segment, tcp_send_segment}
use os_from_scratch_graphic.Tcp.Api.{
  flag_ack, flags_psh_ack, flag_rst, tcp_init, choose_port, pick_ephemeral, iss, tcp_connect,
}
use os_from_scratch_graphic.Tcp.Rx.{take_data, tcp_on_rx, has, flags_of}
use os_from_scratch_graphic.Tcp.Wire.{tcp_segment_verifies}
use os_from_scratch_graphic.Tcp.Buffer.{contents}
use os_from_scratch_graphic.Tcp.Valid.{
  IsValid, here, next, init, connect, segment, Reach-IsValid, tcp_on_rx-outside,
}
use os_from_scratch_graphic.Tcp.Machine.{accepts, next_state, state-tcp_on_rx}
use os_from_scratch_graphic.Tcp.Handshake.{connect_establishes}
use os_from_scratch_graphic.Tcp.Parts.{Arrival, arrive, receive, IsPart, contents-receive}
use os_from_scratch_graphic.Tcp.Stream.{take_data-overflow}

-- 10.0.2.15 and 192.168.31.235
abbrev own_ip : ℕ
own_ip = 10 * 2 ^ 24 + 2 * 2 ^ 8 + 15

abbrev peer_ip : ℕ
peer_ip = 192 * 2 ^ 24 + 168 * 2 ^ 16 + 31 * 2 ^ 8 + 235

-- A connection to port 80 whose buffer has `room` bytes, of which two are unread.
abbrev connected : ℕ → Host
connected room = record boot {
  sock = record {
    in_use = true;
    state = established;
    local_port = 40000;
    remote_port = 80;
    local_ip = own_ip;
    remote_ip = peer_ip;
    snd_iss = 1000;
    snd_nxt = 1001;
    rcv_nxt = 501;
    rx_cap = room;
    rx_len = 2;
    close_after_send = false;
  };
}

abbrev hello : Bytes
hello = 104 ∷ 101 ∷ 108 ∷ 108 ∷ 111 ∷ []

-- A segment from port 80 to port 40000 with the given flags.
abbrev from_peer : ℕ → Bytes
from_peer flags =
    0 ∷ 80 ∷ 156 ∷ 64 ∷ 0 ∷ 0 ∷ 1 ∷ 244 ∷ 0 ∷ 0 ∷ 0 ∷ 0 ∷ 80 ∷ flags ∷ 16 ∷ 0 ∷ 0 ∷ 0 ∷ 0 ∷ 0 ∷ []

connected-IsValid : IsValid (connected 8192)
connected-IsValid = record { fits = omega arith; buffer = omega arith; live = refl }

tcp_segment_verifies_example :
    csum16
      (pseudo (connected 8192).sock 5 ++ tcp_segment (connected 8192).sock flags_psh_ack hello 5)
    ≡ 0
tcp_segment_verifies_example =
    tcp_segment_verifies (connected 8192).sock flags_psh_ack hello 5 (omega arith)
      (omega arith, (omega arith, (omega arith, (omega arith, (omega arith, tt))))) (omega arith)

Reach-IsValid_example :
    IsValid (
      tcp_on_rx
        (tcp_connect (tcp_init (connected 8192)) peer_ip 80 0).1
        (from_peer 0x12)
        20
        peer_ip)
Reach-IsValid_example =
    Reach-IsValid
      (next
        (next (next (here (connected 8192)) (init (connected 8192)))
          (connect (tcp_init (connected 8192)) peer_ip 80 0))
        (segment (tcp_connect (tcp_init (connected 8192)) peer_ip 80 0).1 (from_peer 0x12) 20
          peer_ip))
      connected-IsValid

tcp_on_rx-outside_example :
    (tcp_on_rx (connected 8192) (from_peer 0x10 ++ hello) 25 peer_ip).rb 8192
    ≡ (connected 8192).rb 8192
tcp_on_rx-outside_example =
    tcp_on_rx-outside (connected 8192) (from_peer 0x10 ++ hello) 25 peer_ip 8192 connected-IsValid
      (omega arith)

state-tcp_on_rx_example : (tcp_on_rx (connected 8192) (from_peer 0x11) 20 peer_ip).sock.state ≡ (
    if accepts (connected 8192) (from_peer 0x11) 20 peer_ip
    then (if has (flags_of (from_peer 0x11)) flag_rst
        then closed
        else next_state established (flags_of (from_peer 0x11)))
    else established)
state-tcp_on_rx_example = state-tcp_on_rx (connected 8192) (from_peer 0x11) 20 peer_ip

-- The peer accepts: SYN and ACK, to the first ephemeral port.
syn_ack-accepts : accepts (tcp_connect boot peer_ip 80 0).1 (from_peer 0x12) 20 peer_ip ≡ true
unfolding tcp_connect tcp_send_segment choose_port pick_ephemeral iss ntohs htons
syn_ack-accepts = refl

connect_establishes_example :
    let (ret, h1) = tcp_connect boot peer_ip 80 0 in
    let h2 = tcp_on_rx h1 (from_peer 0x12) 20 peer_ip in
    (ret ≡ pos 0)
    × (h1.sock.state ≡ syn_sent)
    × (h2.sock.state ≡ established)
    × (h2.sock.rcv_nxt ≡ (ntohl (load32 (from_peer 0x12) 4) + 1) % 2 ^ 32)
    × (h2.sock.snd_nxt ≡ (h2.sock.snd_iss + 1) % 2 ^ 32)
    × (h2.net ≡ net_send_ip h1.net peer_ip 6 (tcp_segment h2.sock flag_ack [] 0) 20)
connect_establishes_example =
    connect_establishes boot peer_ip 80 0 (from_peer 0x12) 20 peer_ip refl syn_ack-accepts refl refl

-- A segment from the peer with the low byte of its number and its payload.
abbrev data_from_peer : ℕ → Bytes → Arrival
data_from_peer low payload = record {
  seg =
      0 ∷ 80 ∷ 156 ∷ 64 ∷ 0 ∷ 0 ∷ 1 ∷ low ∷ 0 ∷ 0 ∷ 0 ∷ 0 ∷ 80 ∷ flag_ack ∷ 16 ∷ 0 ∷ 0 ∷ 0 ∷ 0 ∷ 0
        ∷ []
      ++ payload;
  ip_len = 20 + length payload;
  src_ip = peer_ip;
}

-- The middle of "hello" arrives before its start.
abbrev start_part : Arrival
start_part = data_from_peer 245 (104 ∷ 101 ∷ [])

abbrev middle_part : Arrival
middle_part = data_from_peer 247 (108 ∷ [])

middle-IsPart : IsPart hello 501 middle_part
unfolding ntohl
middle-IsPart = record {
  pos = 2;
  no_rst = refl;
  no_fin = refl;
  number = refl;
  inside = omega arith;
  data_is = refl;
}

start-IsPart : IsPart hello 501 start_part
unfolding ntohl
start-IsPart = record {
  pos = 0;
  no_rst = refl;
  no_fin = refl;
  number = refl;
  inside = omega arith;
  data_is = refl;
}

abbrev arrivals : List Arrival
arrivals = middle_part ∷ start_part ∷ start_part ∷ []

contents-receive_example :
    let g = receive (connected 8192) arrivals in
    (k : ℕ) × (k ≤ 5)
    × (contents g ≡ contents (connected 8192) ++ load_bytes k hello)
    × (g.sock.rcv_nxt ≡ (501 + k) % 2 ^ 32)
    × (contents (arrive g middle_part)
        ≡ contents (connected 8192)
          ++ load_bytes
              (if accepts g middle_part.seg middle_part.ip_len peer_ip && (middle-IsPart.pos == k)
                then k + 1
                else k)
              hello)
contents-receive_example =
    contents-receive hello arrivals (connected 8192) middle_part refl (omega arith) (omega arith)
      (omega arith) (middle-IsPart, (start-IsPart, (start-IsPart, tt))) middle-IsPart

take_data-overflow_example :
    let h' = take_data (connected 4) 501 hello 5 in
    (h'.sock.rcv_nxt ≡ (501 + 5) % 2 ^ 32)
    × (contents h' ≡ contents (connected 4) ++ load_bytes 2 hello)
    × (length (contents h') ≡ 4)
    × (h'.sock.rx_len < 2 + 5)
    × (h'.net ≡ net_send_ip (connected 4).net peer_ip 6 (tcp_segment h'.sock flag_ack [] 0) 20)
take_data-overflow_example = take_data-overflow (connected 4) hello 5 (omega arith) (omega arith)
