-- ===== src/Tcp.antt =====
-- tcp.c: one client socket over the IP layer. State holds the data, Segment what goes out, Api the
-- calls of the application, Rx the receive handler. The other modules hold the proofs.
pub mod State
pub mod Segment
pub mod Api
pub mod Rx
pub mod Wire
pub mod Buffer
pub mod Machine
pub mod Valid
pub mod Handshake
pub mod Parts
pub mod Stream
mod Tests
