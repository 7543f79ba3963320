-- ===== src/Kernel/Url.antt =====
-- kernel.c: parse_url, the address line of the browser.
use os_from_scratch_graphic.Prelude.{
  ℕ, suc, ◌+◌, ◌-◌, ◌*◌, ◌%◌, ◌^◌, not, ◌||◌, Option, none, some, [], ◌∷◌, ◌++◌, take, drop, leb,
  ◌==◌, if◌then◌else◌,
}
use os_from_scratch_graphic.Endian.{Bytes, byte}
use os_from_scratch_graphic.Text.{is_digit, strncmp}
use os_from_scratch_graphic.Text.Literals.{codes}
use os_from_scratch_graphic.Dns.Cache.{is_zero}

-- What parse_url stores: the host, the path and the port.
pub record Url : Type 0 where
  pub host : Bytes
  pub path : Bytes
  pub port : ℕ

-- `while (*p && *p != ':' && *p != '/') p++;`
unfoldable pub host_len : Bytes → ℕ
host_len [] = 0
host_len (c ∷ s) = let rest = host_len s in if c == 0 || c == b':' || c == b'/' then 0 else suc rest

-- `while (*p && *p >= '0' && *p <= '9')`: the port in a uint16_t, and the text behind it.
unfoldable pub read_port : ℕ → Bytes → ℕ × Bytes
read_port port [] = (port, [])
read_port port (c ∷ s) =
    let rest = read_port ((port * 10 + (c - b'0')) % 2 ^ 16) s in
    if is_digit c then rest else (port, c ∷ s)

-- The port, and the text behind it.
unfoldable pub port_of : Bytes → ℕ × Bytes
port_of p = if byte p 0 == b':' then read_port 0 (drop 1 p) else (80, p)

abbrev pub path_of : Bytes → Bytes
path_of p = if byte p 0 == b'/' then p else codes "/"

unfoldable pub parse_url : Bytes → ℕ → Option Url
parse_url url host_buf_size =
    let host_start = drop 7 url in
    let n = host_len host_start in
    let (port, rest) = port_of (drop n host_start) in
    if not (is_zero (strncmp url (codes "http://") 7))
    then none
    else if leb host_buf_size n
    then none
    else some (record { host = take n host_start ++ (0 ∷ []); path = path_of rest; port = port })
