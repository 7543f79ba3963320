-- ===== src/Net/State.antt =====
-- net.h and net.c: the interface, the ARP cache and the packets that wait for ARP.
use os_from_scratch_graphic.Prelude.{ℕ, Bool, false, true, List, [], ◌++◌, ◌∷◌, replicate}
use os_from_scratch_graphic.Endian.{Bytes}

-- `struct net_if`, with addresses in host order.
pub record NetIf : Type 0 where
  pub mac : Bytes
  pub ip : ℕ
  pub gw_ip : ℕ
  pub netmask : ℕ

-- `struct arp_cache_entry`. A slot whose `ip` is 0 is free.
pub record ArpEntry : Type 0 where
  pub ip : ℕ
  pub mac : Bytes

-- `struct pending_pkt`. A slot whose `dst_ip` is 0 is free. Of the 1500 bytes of `payload` the list
-- holds the first `payload_len`; no code reads those behind them.
pub record Pending : Type 0 where
  pub dst_ip : ℕ
  pub proto : ℕ
  pub payload_len : ℕ
  pub payload : Bytes

-- The globals of net.c. `sent` is no variable of the code: it holds the frames handed to `nic_tx`,
-- in order, each with as many bytes as the `len` of the call. `overrun` is none either: it says that a
-- copy has gone behind the end of a buffer, and then nothing else of the state means anything.
pub record Net : Type 0 where
  pub netif : NetIf
  pub arp_cache : List ArpEntry
  pub pending : List Pending
  pub sent : List Bytes
  pub overrun : Bool

abbrev pub empty_pending : Pending
empty_pending = record { dst_ip = 0; proto = 0; payload_len = 0; payload = [] }

abbrev pub empty_mac : Bytes
empty_mac = replicate 6 0

abbrev pub empty_entry : ArpEntry
empty_entry = record { ip = 0; mac = empty_mac }

-- The globals before any call: C zeroes them.
abbrev pub boot : Net
boot = record {
  netif = record { mac = empty_mac; ip = 0; gw_ip = 0; netmask = 0 };
  arp_cache = replicate 8 empty_entry;
  pending = replicate 8 empty_pending;
  sent = [];
  overrun = false;
}

-- The call of the driver. What the driver does with the frame is its own part.
abbrev pub nic_tx : Net → Bytes → Net
nic_tx n frame = record n { sent = n.sent ++ (frame ∷ []) }

-- A copy behind the end of a buffer, which C leaves undefined.
abbrev pub overran : Net → Net
overran n = record n { overrun = true }
