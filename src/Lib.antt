-- ===== src/Lib.antt =====
-- btccpu is a Bitcoin miner for one CPU that works for a stratum pool. A job of the pool becomes a
-- prepared work: a coinbase transaction with a counter in it, the merkle root above it, and a header
-- template that keeps the midstate of the header's first 64 bytes. A scan sets one nonce after the
-- other in the template, hashes it, and reports the nonces whose hash meets the pool's target; the
-- coordinator turns them into submissions. A control thread talks to the pool through the client: it
-- publishes the pool's jobs and submits the shares; a worker thread adopts what is published and scans
-- it; the main thread prints their events.
--
-- Prelude       shared names, Boolean tests, lists, results of code that throws, bit operations
-- Hex           src/util/hex.cpp
-- Endian        src/util/endian.hpp
-- Sha256        src/sha256/sha256.cpp; Words and Padding hold its helpers
-- U256          src/util/uint256.hpp; Division holds `divmod`
-- Header        src/mining_job/header.cpp
-- Job           src/mining_job/job.hpp and share.hpp
-- Merkle        src/mining_job/merkle.cpp
-- Coinbase      src/mining_job/coinbase.cpp, from `extranonce2_from_counter` to `build_coinbase`;
--               Reader holds `ByteReader`, Bech32 the encoder of addresses
-- WorkState     src/mining_job/work_state.cpp
-- Target        src/mining_job/target.cpp
-- Scan          src/mining_job/scan.cpp
-- Backend       src/mining_job/backend.hpp and cpu_backend.cpp
-- Coordinator   src/mining_job/coordinator.cpp
-- Json          the interface of the JSON library
-- Messages      src/stratum_client/messages.hpp; Parse, Wire and Summary model messages.cpp
-- Connection    the interface of the connection
-- Client        src/stratum_client/stratum_client.cpp
-- App           src/main.cpp: the shared variables; Control and Worker hold the two threads' functions,
--               MainThread the main thread's loop, System all three threads as steps, one for each
--               access to a shared variable; Shares says what a scan queues
-- Tests         concrete runs
--
-- A definition has the name of the function, method or type that it models; the modules below a
-- component's module hold its proofs. A `std::string` and a byte array are lists of numbers, an
-- object that a function changes is an argument and a result, and an exception is an error of
-- `Result`, by its class. Machine integers are natural numbers with `% 2 ^ w` where the source can
-- wrap around. Loops are structural recursion over the items that are left: the scan recurs on the
-- number of nonces that are left, which the guards of `scan_nonce_range` bound by 2 ^ 32. Only
-- `take_groups` and `countr_zero` recur on a bound of their own, the number of bits, of which each
-- round takes at least one, and `decimal` on 20 digits, which are enough for 64 bits. The client's
-- loops over the pool's lines recur on a number of rounds, and `none` is the result of a loop that
-- reads on behind them: one round more than there are bytes to come is enough, since each line takes
-- one. The loop over the queue of shares recurs on one more than its length, as if the worker pushed
-- nothing meanwhile; System has the steps of both mixed.
--
-- What is outside the program is a parameter: the memory behind the header array, which
-- `make_sha_header_template` reads (`beyond`); the floating-point operations of the difficulty
-- (`FloatingPoint`); what other threads write while a scan runs, as a function of the hashes made
-- (`ScanControl`); the state on which the caller's callback acts; the values, the parser and the printer
-- of boost::json (`Json`, with what it documents as `IsJson`); and the socket of boost::asio
-- (`Connection`, with `IsConnection`). A failed write or read throws, and the state of a client is
-- followed only up to an exception, which ends its thread. An `int` id of the client does not reach its
-- greatest value.
--
-- Not modelled: the output of the main thread, waits and their times, signals, the
-- arguments of `main`, src/repro, `decode_coinbase` and the texts of scripts, stream output, clock
-- readings and hash rates, the floating conversions and the hex and stream texts of the 256-bit integer.
pub mod Prelude
pub mod Hex
pub mod Endian
pub mod Sha256
pub mod U256
pub mod Header
pub mod Job
pub mod Json
pub mod Merkle
pub mod Messages
pub mod Coinbase
pub mod WorkState
pub mod Target
pub mod Scan
pub mod App
pub mod Backend
pub mod Client
pub mod Connection
pub mod Coordinator
mod Tests
