-- ===== src/Tcp/State.antt =====
-- tcp.h and tcp.c: the socket, and what the TCP layer keeps beside it.
use os_from_scratch_graphic.Prelude.{ℕ, Bool, false}
use os_from_scratch_graphic.Memory.{Memory}
use os_from_scratch_graphic.Net.State as NetState
use os_from_scratch_graphic.Net.State.{Net}

-- `tcp_state_t`
pub data TcpState : Type 0 where
  closed syn_sent established fin_wait1 fin_wait2 time_wait : TcpState

-- `tcp_socket_t`. The pointer `rx_buf` is null or the buffer `rb` of `Host`; a null pointer goes
-- with a capacity and a length of 0, so that nothing is read or written through it.
pub record Socket : Type 0 where
  pub in_use : Bool
  pub state : TcpState
  pub local_port : ℕ
  pub remote_port : ℕ
  pub local_ip : ℕ
  pub remote_ip : ℕ
  pub snd_iss : ℕ
  pub snd_nxt : ℕ
  pub rcv_nxt : ℕ
  pub rx_cap : ℕ
  pub rx_len : ℕ
  pub close_after_send : Bool

-- All bits zero, as memset leaves the socket.
abbrev pub zero_socket : Socket
zero_socket = record {
  in_use = false;
  state = closed;
  local_port = 0;
  remote_port = 0;
  local_ip = 0;
  remote_ip = 0;
  snd_iss = 0;
  snd_nxt = 0;
  rcv_nxt = 0;
  rx_cap = 0;
  rx_len = 0;
  close_after_send = false;
}

-- The globals of tcp.c over those of net.c: `g_sock`, the buffer `rb`, and the counters of
-- `pick_ephemeral` and `iss`.
pub record Host : Type 0 where
  pub net : Net
  pub sock : Socket
  pub rb : Memory
  pub next_port : ℕ
  pub next_iss : ℕ

abbrev pub boot : Host
boot = record {
  net = NetState.boot;
  sock = zero_socket;
  rb = λ q. 0;
  next_port = 40000;
  next_iss = 0x12340000;
}
