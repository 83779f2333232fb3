-- ===== src/Connection.antt =====
-- The interface of the TCP connection, which boost::asio provides, as far as
-- src/stratum_client/stratum_client.cpp uses it. A call that throws is an error.
use btccpu.Prelude.{ℕ, ◌≡◌, true, List, ◌++◌, Option, Result, ok, contains}

pub record Connection : Type 1 where
  pub Socket : Type 0
  -- A socket before it is connected.
  pub fresh : Socket
  -- The resolver's answer for a host and a port, connected to.
  pub connect : Socket → List ℕ → List ℕ → Result Socket
  -- `read_until(socket_, buffer_, '\n')`: the bytes in the buffer afterwards.
  pub read_until_newline : Socket → List ℕ → Result (List ℕ × Socket)
  -- `write` of all bytes.
  pub write : Socket → List ℕ → Result Socket
  -- `available`, where `none` is an error code.
  pub available : Socket → Option ℕ

-- What boost::asio documents of `read_until`: it appends to the buffer bytes that are still to come
-- from the other side, up to a newline in the buffer at least, and possibly more. `to_come` is all that
-- the other side will send from now on, answers to later requests included, so a write leaves it.
pub record IsConnection (c : Connection) (to_come : c.Socket → List ℕ) : Type 0 where
  pub read_keeps :
      (s end : c.Socket) (buffer filled : List ℕ)
      → c.read_until_newline s buffer ≡ ok (filled, end)
      → filled ++ to_come end ≡ buffer ++ to_come s
  pub read_finds :
      (s end : c.Socket) (buffer filled : List ℕ)
      → c.read_until_newline s buffer ≡ ok (filled, end)
      → contains 10 filled ≡ true
  pub write_keeps :
      (s end : c.Socket) (bytes : List ℕ) → c.write s bytes ≡ ok end → to_come end ≡ to_come s
