-- ===== src/Http.antt =====
-- http.c: a page over the one TCP socket. Parse holds the text functions, Redirect what is done with
-- a received response, Client the exchange with the server. The other modules hold the proofs.
pub mod Parse
pub mod Redirect
pub mod Client
pub mod Address
pub mod Bounds
pub mod Replies
pub mod Exchange
pub mod Page
pub mod Session
mod Tests
