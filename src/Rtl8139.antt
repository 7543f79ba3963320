-- ===== src/Rtl8139.antt =====
-- rtl8139.c: the network card. Driver holds its state and functions, Transmit and Receive the proofs.
pub mod Driver
pub mod Transmit
pub mod Receive
mod Tests
