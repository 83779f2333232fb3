-- ===== src/Client.antt =====
-- src/stratum_client/stratum_client.hpp and stratum_client.cpp: the client of the pool. A loop over
-- the pool's lines recurs on a number of rounds; `none` says that it would read on behind them.
pub mod Lines
pub mod Rounds
pub mod Answers
pub mod Ready
pub mod Session
use btccpu.Prelude.{
  ℕ, ℤ, pos, zero, suc, ◌+◌, Bool, true, false, not, ◌&&◌, ◌||◌, List, [], ◌∷◌, ◌++◌, Option, none,
  some, ◌==◌, if◌then◌else◌, is_nil, equal_int, Result, ok, err, runtime_error, invalid_argument,
  ◌>>=◌, ◌>>◌, throw_if,
}
use btccpu.Job.{SubscriptionContext, MiningJob, ShareSubmission}
use btccpu.Target.{FloatingPoint}
use btccpu.Json.{Json}
use btccpu.Connection.{Connection}
use btccpu.Messages.{
  SubmitShareRequest, IncomingMessage, unknown, set_difficulty, notify, subscribe_response,
  authorize_response, submit_response,
}
use btccpu.Messages.Parse.{parse_incoming_message}
use btccpu.Messages.Wire.{subscribe_wire, suggest_difficulty_wire, authorize_wire, submit_wire}
use btccpu.Messages.Summary.{debug_summary}

pub record SubmitShareResult : Type 0 where
  pub accepted : Bool
  pub error_text : List ℕ
  pub raw_request : List ℕ
  pub raw_response : List ℕ

pub record PollResult : Type 0 where
  pub got_message : Bool
  pub work_invalidated : Bool

pub record StratumClient (Double Socket : Type 0) : Type 0 where
  pub host : List ℕ
  pub port : List ℕ
  pub socket : Socket
  pub buffer : List ℕ
  pub next_id : ℕ
  pub subscription : Option SubscriptionContext
  pub current_job : Option MiningJob
  pub difficulty : Double
  pub worker_name : List ℕ
  pub last_raw_incoming : List ℕ
  pub last_raw_outgoing : List ℕ
  pub last_raw_notify : List ℕ
  pub last_parsed_summary : List ℕ

-- `PollResult{}`
abbrev pub no_result : PollResult
no_result = record { got_message = false; work_invalidated = false }

-- `std::getline`: the characters before the first newline, and those behind it.
unfoldable pub get_line : List ℕ → List ℕ × List ℕ
get_line [] = ([], [])
get_line (c ∷ s) = let (line, rest) = get_line s in if c == 10 then ([], s) else (c ∷ line, rest)

-- `line.back() == '\r'`, `line.pop_back()`
unfoldable pub strip_return : List ℕ → List ℕ
strip_return [] = []
strip_return (c ∷ []) = if c == 13 then [] else c ∷ []
strip_return (c ∷ d ∷ s) = c ∷ strip_return (d ∷ s)

-- The operations, over the interfaces of the numbers, the parser and the connection.
module _ (f : FloatingPoint) (json : Json f.Double) (c : Connection) where
  abbrev pub Client : Type 0
  Client = StratumClient f.Double c.Socket

  -- The constructor.
  unfoldable pub make_client : List ℕ → List ℕ → Client
  make_client host port = record {
    host = host;
    port = port;
    socket = c.fresh;
    buffer = [];
    next_id = 1;
    subscription = none;
    current_job = none;
    difficulty = f.from_u64 1;
    worker_name = [];
    last_raw_incoming = [];
    last_raw_outgoing = [];
    last_raw_notify = [];
    last_parsed_summary = [];
  }

  unfoldable pub apply_parsed_message : IncomingMessage f.Double → Client → PollResult × Client
  apply_parsed_message (unknown msg) client =
      (record { got_message = true; work_invalidated = false }, client)
  apply_parsed_message (set_difficulty msg) client =
      if f.differ client.difficulty msg.difficulty
      then (
        record { got_message = true; work_invalidated = true },
        record client { difficulty = msg.difficulty },
      )
      else (record { got_message = true; work_invalidated = false }, client)
  apply_parsed_message (notify msg) client = (
    record { got_message = true; work_invalidated = true },
    record client {
      current_job = some (record {
        job_id = msg.job_id;
        prevhash = msg.prevhash;
        coinb1 = msg.coinb1;
        coinb2 = msg.coinb2;
        merkle_branch = msg.merkle_branch;
        version = msg.version;
        nbits = msg.nbits;
        ntime = msg.ntime;
        clean_jobs = msg.clean_jobs;
      });
    },
  )
  apply_parsed_message (subscribe_response msg) client = (
    record { got_message = true; work_invalidated = false },
    record client {
      subscription =
          some (record { extranonce1 = msg.extranonce1; extranonce2_size = msg.extranonce2_size });
    },
  )
  apply_parsed_message (authorize_response msg) client =
      (record { got_message = true; work_invalidated = false }, client)
  apply_parsed_message (submit_response msg) client =
      (record { got_message = true; work_invalidated = false }, client)

  -- What is set before the write stays set, but a client whose write throws is not used any more.
  unfoldable pub send_wire_message : List ℕ → Client → Result Client
  send_wire_message wire client = do
    socket ← c.write client.socket (wire ++ (10 ∷ []))
    ok (record client { socket = socket; last_raw_outgoing = wire })

  unfoldable pub connect : Client → Result Client
  connect client = do
    socket ← c.connect client.socket client.host client.port
    ok (record client { socket = socket })

  -- `next_id_++`
  abbrev pub count_id : Client → Client
  count_id client = record client { next_id = client.next_id + 1 }

  unfoldable pub subscribe : Client → Result Client
  subscribe client =
      send_wire_message (subscribe_wire f json (pos client.next_id)) (count_id client)

  unfoldable pub suggest_difficulty : f.Double → Client → Result Client
  suggest_difficulty difficulty client = do
    throw_if (not (f.is_positive difficulty) || not (f.is_finite difficulty)) invalid_argument
    send_wire_message
        (suggest_difficulty_wire f json (record { difficulty = difficulty }) (pos client.next_id))
        (count_id client)

  unfoldable pub authorize : List ℕ → List ℕ → Client → Result Client
  authorize user password client =
      send_wire_message
        (authorize_wire f json (record { user = user; password = password }) (pos client.next_id))
        (record (count_id client) { worker_name = user })

  unfoldable pub read_line : Client → Result (List ℕ × Client)
  read_line client = do
    (filled, socket) ← c.read_until_newline client.socket client.buffer
    let (raw, rest) = get_line filled
    let line = strip_return raw
    ok (line, record client { socket = socket; buffer = rest; last_raw_incoming = line })

  -- The summary of a message, and the line of a job.
  unfoldable pub note_message : List ℕ → IncomingMessage f.Double → Client → Client
  note_message line parsed client =
      let noted : Client = record client { last_parsed_summary = debug_summary f parsed } in
      elim parsed [ notify msg ↦ record noted { last_raw_notify = line } | _ ↦ noted ]

  unfoldable pub handle_message : List ℕ → Client → PollResult × Client
  handle_message line client = elim (parse_incoming_message f json line) [
    | none ↦ (no_result, record client { last_parsed_summary = [] })
    | some parsed ↦ apply_parsed_message parsed (note_message line parsed client)
  ]

  unfoldable pub ready : Client → Bool
  ready client = elim client.subscription [
    | none ↦ false
    | some subscription ↦ elim client.current_job [ none ↦ false | some job ↦ true ]
  ]

  unfoldable pub run_until_ready : ℕ → Client → Option (Result Client)
  run_until_ready zero client = none
  run_until_ready (suc rounds) client = elim (ready client) [
    | true ↦ some (ok client)
    | false ↦ elim (read_line client) [
      | err e ↦ some (err e)
      | ok (line, read) ↦
          run_until_ready rounds (if is_nil line then read else (handle_message line read).1)
    ]
  ]

  unfoldable pub poll : Client → Result (PollResult × Client)
  poll client = elim (c.available client.socket) [
    | none ↦ ok (no_result, client)
    | some available ↦ if available == 0 then ok (no_result, client) else (do
      (line, read) ← read_line client
      if is_nil line then ok (no_result, read) else ok (handle_message line read))
  ]

  -- A line in the loop of `submit_share`: another one is read, or the result is there.
  pub data SubmitRound : Type 0 where
    again : Client → SubmitRound
    answered : SubmitShareResult → Client → SubmitRound

  unfoldable pub submit_message :
      ℤ → List ℕ → List ℕ → IncomingMessage f.Double → Client → SubmitRound
  submit_message submit_id wire line (submit_response submit) client =
      if equal_int submit.id submit_id
      then answered
          (record {
            accepted = submit.accepted;
            error_text = submit.error_text;
            raw_request = wire;
            raw_response = line;
          })
          client
      else again (apply_parsed_message (submit_response submit) client).1
  submit_message submit_id wire line parsed client = again (apply_parsed_message parsed client).1

  unfoldable pub submit_round : ℤ → List ℕ → List ℕ → Client → SubmitRound
  submit_round submit_id wire line client =
      if is_nil line then again client else elim (parse_incoming_message f json line) [
        | none ↦ again client
        | some parsed ↦ submit_message submit_id wire line parsed (note_message line parsed client)
      ]

  unfoldable pub submit_loop :
      ℕ → ℤ → List ℕ → Client → Option (Result (SubmitShareResult × Client))
  submit_loop zero submit_id wire client = none
  submit_loop (suc rounds) submit_id wire client = elim (read_line client) [
    | err e ↦ some (err e)
    | ok (line, read) ↦ elim (submit_round submit_id wire line read) [
      | again client ↦ submit_loop rounds submit_id wire client
      | answered result client ↦ some (ok (result, client))
    ]
  ]

  -- The request of a share.
  unfoldable pub share_request : ShareSubmission → Client → SubmitShareRequest
  share_request share client = record {
    worker_name = client.worker_name;
    job_id = share.job_id;
    extranonce2_hex = share.extranonce2_hex;
    ntime_hex = share.ntime_hex;
    nonce_hex = share.nonce_hex;
  }

  unfoldable pub submit_share :
      ℕ → ShareSubmission → Client → Option (Result (SubmitShareResult × Client))
  submit_share rounds share client =
      let submit_id = pos client.next_id in
      let wire = submit_wire f json (share_request share client) submit_id in
      if is_nil client.worker_name
      then some (err runtime_error)
      else elim (send_wire_message wire (count_id client)) [
        | err e ↦ some (err e)
        | ok sent ↦ submit_loop rounds submit_id wire sent
      ]
