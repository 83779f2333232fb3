-- ===== src/Tests.antt =====
-- Concrete runs, and each theorem with hypotheses at a concrete input.
mod Sha256
mod Works
mod Scans
mod Numbers
mod Texts
mod Addresses
mod Codec
mod Pool
mod Sessions
mod Threads
