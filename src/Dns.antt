-- ===== src/Dns.antt =====
-- dns.c: the name cache, the outstanding queries, the query packet and the response parser. The
-- functions stand in Cache, Query and Response; the other modules hold the proofs.
pub mod Cache
pub mod Query
pub mod Response
pub mod Lookup
pub mod Names
pub mod Answer
pub mod Resolve
pub mod Wait
mod Tests
