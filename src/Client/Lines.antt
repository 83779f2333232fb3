-- ===== src/Client/Lines.antt =====
-- src/stratum_client/stratum_client.cpp: the lines that `read_line` takes from the connection, and
-- that the loops over them end.
use btccpu.Prelude.{
  ℕ, ◌⊎◌, Result-cases, Option-cases, zero, suc, ◌<◌, ◌≡◌, refl, sym, ap, ◌∙◌, true, false, List,
  [], ◌∷◌, ◌++◌, some, append_assoc, ◌==◌, if◌then◌else◌, length, length-append, contains, is_nil,
  Bool-cases, inl, inr, ==_iff, subst, ℤ, pos, equal_int, Result, ok, >>=-eq-ok, ok-injective,
  arith,
}
use btccpu.Job.{ShareSubmission}
use btccpu.Target.{FloatingPoint}
use btccpu.Json.{Json}
use btccpu.Connection.{Connection, IsConnection}
use btccpu.Messages.{
  IncomingMessage, unknown, set_difficulty, notify, subscribe_response, authorize_response,
  submit_response,
}
use btccpu.Messages.Parse.{parse_incoming_message}
use btccpu.Messages.Wire.{submit_wire}
use btccpu.Client.{
  SubmitShareResult, Client, get_line, strip_return, apply_parsed_message, note_message,
  handle_message, read_line, ready, run_until_ready, again, answered, SubmitRound, submit_message,
  submit_round, submit_loop, send_wire_message, count_id, share_request, submit_share,
}

-- A text with a newline is its first line, the newline and the rest.
get_line_lem :
    (s : List ℕ)
    → contains 10 s ≡ true
    → (s ≡ (get_line s).0 ++ (10 ∷ (get_line s).1)) × (contains 10 (get_line s).0 ≡ false)
unfolding get_line
get_line_lem [] h = cc
get_line_lem (c ∷ s) h = elim (Bool-cases (c == 10)) [
  | inl e ↦
      let is_newline : c ≡ 10 = (==_iff c 10).0 e in
      (rw e (ap (λ (d : ℕ). d ∷ s) is_newline), rw e refl)
  | inr e ↦
      let (split, none_in) = get_line_lem s (let g : contains 10 s ≡ true = ground arith in g) in
      (rw e (ap (λ t. c ∷ t) split), rw (e, none_in) (rw e refl))
]

module _ (f : FloatingPoint) (json : Json f.Double) (c : Connection)
    (to_come : c.Socket → List ℕ) where
  -- What the client has not read yet: its buffer, and what is still to come.
  abbrev pub pending : Client f json c → List ℕ
  pending client = client.buffer ++ to_come client.socket

  -- One line more was read.
  pub record IsRead (client read : Client f json c) (line : List ℕ) : Type 0 where
    pub raw : List ℕ
    pub no_newline : contains 10 raw ≡ false
    pub stripped : line ≡ strip_return raw
    pub splits : pending client ≡ raw ++ (10 ∷ pending read)
    pub keeps :
        read
        ≡ record client { socket = read.socket; buffer = read.buffer; last_raw_incoming = line }

  -- A line that read_line returns is the text up to the first newline of all that the client has not
  -- read yet, less a carriage return at its end, wherever the reads from the connection cut that text;
  -- what is behind the newline stays to be read, and the rest of the client is kept.
  pub read_line-IsRead :
      (client read : Client f json c) (line : List ℕ)
      → IsConnection c to_come
      → read_line f json c client ≡ ok (line, read)
      → IsRead client read line
  unfolding read_line
  read_line-IsRead client read line law h =
      let ((filled, socket), reads, made) =
        >>=-eq-ok (c.read_until_newline client.socket client.buffer) _ h in
      let (splits, none_in) =
        get_line_lem filled (law.read_finds client.socket socket client.buffer filled reads) in
      let taken : Client f json c = record client {
        socket = socket;
        buffer = (get_line filled).1;
        last_raw_incoming = strip_return (get_line filled).0;
      } in
      let one : IsRead client taken (strip_return (get_line filled).0) = record {
        raw = (get_line filled).0;
        no_newline = none_in;
        stripped = refl;
        splits =
            sym (law.read_keeps client.socket socket client.buffer filled reads)
            ∙ ap (λ t. t ++ to_come socket) splits
            ∙ append_assoc (get_line filled).0 (10 ∷ (get_line filled).1) (to_come socket);
        keeps = refl;
      } in
      subst (λ (p : List ℕ × Client f json c). IsRead client p.1 p.0) (ok-injective made) one

  -- A line that is read is a line less to come.
  pub IsRead-lt :
      (client read : Client f json c) (line : List ℕ)
      → IsRead client read line
      → length (pending read) < length (pending client)
  IsRead-lt client read line x =
      let e = ap length x.splits in let d = length-append x.raw (10 ∷ pending read) in omega arith

  -- A message does not touch the connection.
  pub note_message-pending :
      (line : List ℕ) (parsed : IncomingMessage f.Double) (client : Client f json c)
      → pending (note_message f json c line parsed client) ≡ pending client
  unfolding note_message
  note_message-pending line (unknown m) client = refl
  note_message-pending line (set_difficulty m) client = refl
  note_message-pending line (notify m) client = refl
  note_message-pending line (subscribe_response m) client = refl
  note_message-pending line (authorize_response m) client = refl
  note_message-pending line (submit_response m) client = refl

  pub apply_parsed_message-pending :
      (parsed : IncomingMessage f.Double) (client : Client f json c)
      → pending (apply_parsed_message f json c parsed client).1 ≡ pending client
  unfolding apply_parsed_message
  apply_parsed_message-pending (unknown m) client = refl
  apply_parsed_message-pending (set_difficulty m) client =
      elim (Bool-cases (f.differ client.difficulty m.difficulty)) [
        | inl e ↦ rw e refl
        | inr e ↦ rw e refl
      ]
  apply_parsed_message-pending (notify m) client = refl
  apply_parsed_message-pending (subscribe_response m) client = refl
  apply_parsed_message-pending (authorize_response m) client = refl
  apply_parsed_message-pending (submit_response m) client = refl

  handle_message-pending :
      (line : List ℕ) (client : Client f json c)
      → pending (handle_message f json c line client).1 ≡ pending client
  unfolding handle_message
  handle_message-pending line client = elim (Option-cases (parse_incoming_message f json line)) [
    | inl e ↦ rw (e, handle_message) refl
    | inr (parsed, e) ↦
        rw (e, handle_message)
          (apply_parsed_message-pending parsed (note_message f json c line parsed client)
            ∙ note_message-pending line parsed client)
  ]

  -- The client behind a line of `submit_share` has as much to read as before.
  abbrev pub GoesOn : SubmitRound f json c → List ℕ → Type 0
  GoesOn (again client) left = pending client ≡ left
  GoesOn (answered result client) left = pending client ≡ left

  submit_message-GoesOn :
      (submit_id : ℤ) (wire line : List ℕ) (parsed : IncomingMessage f.Double)
      (client : Client f json c)
      → GoesOn (submit_message f json c submit_id wire line parsed client) (pending client)
  unfolding submit_message
  submit_message-GoesOn submit_id wire line (submit_response m) client =
      elim (Bool-cases (equal_int m.id submit_id)) [
        | inl e ↦ rw (e, submit_message) refl
        | inr e ↦ rw (e, submit_message) (apply_parsed_message-pending (submit_response m) client)
      ]
  submit_message-GoesOn submit_id wire line (unknown m) client =
      apply_parsed_message-pending (unknown m) client
  submit_message-GoesOn submit_id wire line (set_difficulty m) client =
      apply_parsed_message-pending (set_difficulty m) client
  submit_message-GoesOn submit_id wire line (notify m) client =
      apply_parsed_message-pending (notify m) client
  submit_message-GoesOn submit_id wire line (subscribe_response m) client =
      apply_parsed_message-pending (subscribe_response m) client
  submit_message-GoesOn submit_id wire line (authorize_response m) client =
      apply_parsed_message-pending (authorize_response m) client

  pub submit_round-GoesOn :
      (submit_id : ℤ) (wire line : List ℕ) (client : Client f json c)
      → GoesOn (submit_round f json c submit_id wire line client) (pending client)
  unfolding submit_round
  submit_round-GoesOn submit_id wire [] client = refl
  submit_round-GoesOn submit_id wire (a ∷ line) client =
      elim (Option-cases (parse_incoming_message f json (a ∷ line))) [
        | inl e ↦ rw (e, submit_round) refl
        | inr (parsed, e) ↦
            rw (e, submit_round)
              (subst
                (GoesOn (
                  submit_message f json c submit_id wire (a ∷ line) parsed
                    (note_message f json c (a ∷ line) parsed client)))
                (note_message-pending (a ∷ line) parsed client)
                (submit_message-GoesOn submit_id wire (a ∷ line) parsed
                  (note_message f json c (a ∷ line) parsed client)))
      ]

  pub receive-pending :
      (line : List ℕ) (read : Client f json c)
      → pending (if is_nil line then read else (handle_message f json c line read).1) ≡ pending read
  receive-pending [] read = refl
  receive-pending (a ∷ line) read = handle_message-pending (a ∷ line) read

  -- The loop of run_until_ready ends, with a ready client or an exception, in as many rounds as there
  -- are bytes that the client has not read yet, and one.
  pub run_until_ready-ends :
      (rounds : ℕ) (client : Client f json c)
      → IsConnection c to_come
      → length (pending client) < rounds
      → (r : Result (Client f json c)) × (run_until_ready f json c rounds client ≡ some r)
  unfolding run_until_ready
  run_until_ready-ends zero client law h = absurd (omega arith)
  run_until_ready-ends (suc rounds) client law h = elim (Bool-cases (ready f json c client)) [
    | inl e ↦ rw (e, run_until_ready) (_, refl)
    | inr e ↦ elim (Result-cases (read_line f json c client)) [
      | inl (thrown, throws) ↦ rw (e, throws, run_until_ready) (_, refl)
      | inr ((line, read), reads) ↦
          let fewer = IsRead-lt client read line (read_line-IsRead client read line law reads) in
          let same = ap length (receive-pending line read) in
          rw (e, reads, run_until_ready)
            (run_until_ready-ends rounds
              (if is_nil line then read else (handle_message f json c line read).1) law
              (omega arith))
    ]
  ]

  pub SubmitRound-cases :
      (round : SubmitRound f json c)
      → ((client : Client f json c) × (round ≡ again client))
        ⊎ ((result : SubmitShareResult) × (client : Client f json c) × (round
              ≡ answered result client))
  SubmitRound-cases (again client) = inl (client, refl)
  SubmitRound-cases (answered result client) = inr (result, client, refl)

  submit_loop-ends :
      (rounds : ℕ) (submit_id : ℤ) (wire : List ℕ) (client : Client f json c)
      → IsConnection c to_come
      → length (pending client) < rounds
      → (r : Result (SubmitShareResult × Client f json c)) × (submit_loop f json c rounds submit_id
            wire client
          ≡ some r)
  unfolding submit_loop
  submit_loop-ends zero submit_id wire client law h = absurd (omega arith)
  submit_loop-ends (suc rounds) submit_id wire client law h =
      elim (Result-cases (read_line f json c client)) [
        | inl (thrown, throws) ↦ rw (throws, submit_loop) (_, refl)
        | inr ((line, read), reads) ↦
            elim (SubmitRound-cases (submit_round f json c submit_id wire line read)) [
              | inl (next, e) ↦
                  let fewer =
                    IsRead-lt client read line (read_line-IsRead client read line law reads) in
                  let goes : pending next ≡ pending read =
                    subst (λ r. GoesOn r (pending read)) e
                      (submit_round-GoesOn submit_id wire line read) in
                  let same = ap length goes in
                  rw (reads, e, submit_loop)
                    (submit_loop-ends rounds submit_id wire next law (omega arith))
              | inr (result, next, e) ↦ rw (reads, e, submit_loop) (_, refl)
            ]
      ]

  -- A request does not change what is to be read.
  pub send_wire_message-pending :
      (wire : List ℕ) (client sent : Client f json c)
      → IsConnection c to_come
      → send_wire_message f json c wire client ≡ ok sent
      → pending sent ≡ pending client
  unfolding send_wire_message
  send_wire_message-pending wire client sent law h =
      let (socket, writes, made) = >>=-eq-ok (c.write client.socket (wire ++ (10 ∷ []))) _ h in
      ap pending (sym (ok-injective made))
      ∙ ap (λ t. client.buffer ++ t)
          (law.write_keeps client.socket socket (wire ++ (10 ∷ [])) writes)

  -- submit_share returns or throws, and does not wait on, in as many rounds as there are bytes that the
  -- client has not read yet, and one.
  pub submit_share-ends :
      (rounds : ℕ) (share : ShareSubmission) (client : Client f json c)
      → IsConnection c to_come
      → length (pending client) < rounds
      → (r : Result (SubmitShareResult × Client f json c)) × (submit_share f json c rounds share
            client
          ≡ some r)
  unfolding submit_share
  submit_share-ends rounds share client law enough =
      let submit_id = pos client.next_id in
      let wire = submit_wire f json (share_request f json c share client) submit_id in
      elim (Bool-cases (is_nil client.worker_name)) [
        | inl e ↦ rw (e, submit_share) (_, refl)
        | inr e ↦ elim (Result-cases (send_wire_message f json c wire (count_id f json c client))) [
          | inl (thrown, throws) ↦ rw (e, throws, submit_share) (_, refl)
          | inr (sent, sends) ↦
              let same =
                ap length
                  (send_wire_message-pending wire (count_id f json c client) sent law sends) in
              rw (e, sends, submit_share)
                (submit_loop-ends rounds submit_id wire sent law (omega arith))
        ]
      ]
