-- ===== src/E1000e.antt =====
-- drivers/e1000e.c: the driver of Intel network cards, which takes the place of rtl8139.c in a build and has the
-- same function names.
pub mod Driver
pub mod Steps
pub mod Receive
mod Tests
