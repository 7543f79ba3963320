-- ===== src/Http/Tests.antt =====
-- http.c against a server that sends a short page.
use os_from_scratch_graphic.Prelude.{
  ℕ, zero, suc, ◌+◌, ◌*◌, ◌^◌, ◌≡◌, ◌<◌, ◌≢◌, refl, true, false, none, some, [], ◌∷◌, ◌++◌, arith,
  length, take, leb, ltb, ◌&&◌, ◌==◌, if◌then◌else◌,
}
use os_from_scratch_graphic.Prelude.Int.{pos}
use os_from_scratch_graphic.Endian.{Bytes, byte}
use os_from_scratch_graphic.Text.{strncmp, atoi}
use os_from_scratch_graphic.Text.Literals.{codes}
use os_from_scratch_graphic.Text.Search.{OccursAt}
use os_from_scratch_graphic.Tcp.State.{Host, established, fin_wait1, closed}
use os_from_scratch_graphic.Tcp.Segment.{tcp_send_segment}
use os_from_scratch_graphic.Tcp.Api.{
  is_established, choose_port, pick_ephemeral, iss, tcp_init, tcp_connect, tcp_send, tcp_recv,
  tcp_close,
}
use os_from_scratch_graphic.Dns.Query as Query
use os_from_scratch_graphic.Dns.Query.{Stack}
use os_from_scratch_graphic.Http.Parse.{
  read_octet, read_parts, parse_ipv4_literal, skip_to_space, parse_http_status,
}
use os_from_scratch_graphic.Http.Client.{
  World, with_host, await_established, poll, receive_raw, http_get_by_ip_port,
}
use os_from_scratch_graphic.Http.Address.{IsOctet}
use os_from_scratch_graphic.Http.Replies.{IsResult, http_get_by_ip_port-IsResult}
use os_from_scratch_graphic.Http.Exchange.{Delivers, chunk, done, receive_raw-spins}
use os_from_scratch_graphic.Http.Page.{IsText, blank}
use os_from_scratch_graphic.Http.Session.{requested, connected, http_get_by_ip_port-page}

-- 10.0.2.2
abbrev ip : ℕ
ip = 10 * 2 ^ 24 + 2 * 2 ^ 8 + 2

ten-IsOctet : IsOctet (codes "10") 10
ten-IsOctet = record {
  are_digits = (refl, (refl, tt));
  some_digit = omega arith;
  value = refl;
  small = omega arith;
}

zero-IsOctet : IsOctet (codes "0") 0
zero-IsOctet = record {
  are_digits = (refl, tt);
  some_digit = omega arith;
  value = refl;
  small = omega arith;
}

two-IsOctet : IsOctet (codes "2") 2
two-IsOctet = record {
  are_digits = (refl, tt);
  some_digit = omega arith;
  value = refl;
  small = omega arith;
}

-- An octet is read in 32 bits: 4294967297 is 1.
wrapped_octet : parse_ipv4_literal (codes "4294967297.0.0.1") ≡ some (2 ^ 24 + 1)
unfolding parse_ipv4_literal read_parts read_octet
wrapped_octet = refl

abbrev head : Bytes
head = codes "HTTP/1.1 200 OK"

abbrev page : Bytes
page = codes "hello"

abbrev answer : Bytes
answer = head ++ (blank ++ page)

-- The socket of a stack in the given state, with `n` bytes of the answer unread.
abbrev in_state : Host → ℕ → Host
in_state h n = record h {
  rb = byte answer;
  sock = record (h.sock) {
    state = if n == 0 then fin_wait1 else established;
    rx_cap = 8192;
    rx_len = n;
    rcv_nxt = 7;
  };
}

abbrev up : Stack → Stack
up s = record s { host = record (s.host) { sock = record (s.host.sock) { state = established } } }

-- The first poll brings the SYN+ACK, the second the answer, the third the FIN.
abbrev server : ℕ → Stack → Stack
server i s =
    if i == 0
    then up s
    else if i == 1
    then record s { host = in_state s.host 24 }
    else record s { host = in_state s.host 0 }

abbrev start : World
start = record {
  stack = Query.boot;
  clock = 0;
  last_ret = pos 0;
  last_raw_len = 0;
  last_tcp_state = closed;
}

http_get_by_ip_port-IsResult_example :
    IsResult server 4 (http_get_by_ip_port server 2 start ip 80 (codes "h") (codes "/") 4)
http_get_by_ip_port-IsResult_example =
    http_get_by_ip_port-IsResult server 4 2 start ip 80 (codes "h") (codes "/")

-- No byte is a carriage return, so no empty line starts there.
NoReturn : Bytes → Type 0
NoReturn [] = Unit
NoReturn (c ∷ s) = (c ≢ 13) × NoReturn s

no_blank : (s rest : Bytes) → NoReturn s → (i : ℕ) → i < length s → ¬ OccursAt (s ++ rest) blank i
unfolding NoReturn
no_blank [] rest h i l e = absurd (omega arith)
no_blank (c ∷ s) rest h zero l e = h.0 (ground arith)
no_blank (c ∷ s) rest h (suc i) l e = no_blank s rest h.1 i (omega arith) e

head-NoReturn : NoReturn head
unfolding NoReturn
head-NoReturn = omega arith

head-IsText : IsText head
head-IsText = omega arith

page-IsText : IsText page
page-IsText = omega arith

final_status :
    (leb 300 (parse_http_status (answer ++ (0 ∷ [])))
      && ltb (parse_http_status (answer ++ (0 ∷ []))) 400)
    ≡ false
unfolding parse_http_status skip_to_space strncmp atoi
final_status = refl

abbrev asked : World
asked = requested server start ip 80 (codes "h") (codes "/") 4 2

-- The poll that brings the answer, what is left when it has been read, and the poll behind it.
abbrev answered : World
answered = poll server asked

abbrev read : World
read = with_host answered (tcp_recv answered.stack.host 24).1

connection_up :
    is_established (connected server start ip 80 (codes "h") (codes "/") 4 2).stack.host.sock.state
    ≡ true
unfolding await_established tcp_connect tcp_send_segment choose_port pick_ephemeral iss tcp_init
connection_up = refl

answer_delivered : Delivers server 2 asked answer (poll server read)
unfolding await_established tcp_connect tcp_send tcp_send_segment choose_port pick_ephemeral iss
    tcp_init
answer_delivered = chunk {bs = []} (omega arith) (done refl refl)

http_get_by_ip_port-page_example :
    http_get_by_ip_port server 2 start ip 80 (codes "h") (codes "/") 4
    ≡ some (
      record (with_host (poll server read) (tcp_close (poll server read).stack.host)) {
        last_ret = pos (length (take 3 page));
        last_raw_len = length answer;
      },
      record { ret = pos (length (take 3 page)); out = take 3 page ++ (0 ∷ []) },
    )
http_get_by_ip_port-page_example =
    http_get_by_ip_port-page server start ip 80 (codes "h") (codes "/") 4 2 head page connection_up
      answer_delivered (omega arith) head-IsText page-IsText
      (no_blank head (blank ++ page) head-NoReturn) final_status (omega arith)

-- The peer has reset the connection, and nothing arrives any more.
abbrev reset : World
reset = record start { clock = 5 }

receive_raw-spins_example : receive_raw (λ i s. s) 1000 reset (codes "HTTP") ≡ none
receive_raw-spins_example =
    receive_raw-spins (λ i s. s) 1000 reset (codes "HTTP") (λ i. refl) refl refl (omega arith)
