-- ===== src/Net.antt =====
-- net.c: ARP, IPv4 and UDP. The data is in State; Arp and Send hold the functions down to the
-- network card, and Rx the receive path, which calls the TCP and DNS parts. The other modules hold
-- the proofs about them.
mod Tests
pub mod State
pub mod Arp
pub mod Send
pub mod Cache
pub mod Rx
pub mod Packet
pub mod Waiting
pub mod Exchange
pub mod RoundTrip
