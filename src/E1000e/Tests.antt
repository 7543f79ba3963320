-- ===== src/E1000e/Tests.antt =====
-- drivers/e1000e.c: a ring with two filled descriptors.
use os_from_scratch_graphic.Prelude.{ℕ, ◌≡◌, refl, true, [], ◌∷◌, replicate}
use os_from_scratch_graphic.Memory.{Memory}
use os_from_scratch_graphic.Dns.Query.{Stack}
use os_from_scratch_graphic.Dns.Query as Query
use os_from_scratch_graphic.E1000e.Driver.{Driver, RxDesc, no_rx}
use os_from_scratch_graphic.E1000e.Steps.{waiting}

abbrev zeros : Memory
zeros p = 0

abbrev filled : ℕ → RxDesc
filled n = record { buffer_addr = 0x100000; len = n; status = 1 }

unfoldable card : Stack → Driver
card s = record {
  mmio = 0xfebc0000;
  driver_ready = true;
  rx_ring = no_rx ∷ (filled 60 ∷ (filled 0 ∷ replicate 29 no_rx));
  rx_bufs = replicate 32 0x100000;
  rx_tail = 31;
  tx_ring = [];
  tx_bufs = [];
  tx_tail = 0;
  tx_head = 0;
  heap = 0x200000;
  mem = zeros;
  writes = [];
  config = [];
  stack = s;
  datagrams = [];
}

unfoldable boot_card : Driver
boot_card = card Query.boot

-- The frame of 60 bytes is taken, the one of none is not.
waiting-boot_card : waiting boot_card.rx_ring boot_card.rx_bufs ≡ (0x100000, 60) ∷ []
unfolding boot_card card waiting
waiting-boot_card = refl
