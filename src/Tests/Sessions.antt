-- ===== src/Tests/Sessions.antt =====
-- A pool that answers, over the trees and the reads of Pool.
use btccpu.Prelude.{
  ℕ, pos, ◌+◌, ◌≡◌, ◌≢◌, refl, Bool, true, false, List, [], ◌∷◌, Option, none, some, if◌then◌else◌,
  equal_text, Result, ok, arith, is_ok, get_ok, ap, get_ok_lem,
}
use mathlib.Core.Bool.{false≢true}
use btccpu.Job.{ShareSubmission}
use btccpu.Json.{Json, object}
use btccpu.Messages.{
  SubmitResponse, NotifyMessage, SubmitShareRequest, notify, authorize_response, submit_response,
}
use btccpu.Messages.Parse.{
  id_key, method_key, params_key, result_key, notify_method, parse_incoming_message, parse_object,
  parse_method_message, parse_set_difficulty, parse_notify, parse_subscribe_response,
  parse_submit_response, parse_authorize_response, parse_message_id, parse_accepted, parse_error,
  parse_branches, parse_size, find_params_array, json_string_at, c_str, fits_int,
}
use btccpu.Messages.Wire.{submit_wire, submit_method}
use btccpu.Messages.Answers.{
  parse_incoming_message-authorize_response, parse_incoming_message-bool, parse-submit_wire,
  TellsError,
}
use btccpu.Messages.Notify.{parse_incoming_message-notify_params}
use btccpu.Client.{
  SubmitShareResult, Client, get_line, strip_return, apply_parsed_message, send_wire_message,
  read_line, note_message, handle_message, ready, run_until_ready, submit_message, submit_round,
  submit_loop, share_request, submit_share, count_id,
}
use btccpu.Client.Lines.{pending, IsRead, read_line-IsRead, run_until_ready-ends, submit_share-ends}
use btccpu.Client.Session.{Spells, session, replay, handle_message-invalidates}
use btccpu.Client.Ready.{run_until_ready-replay}
use btccpu.Client.Answers.{IsAnswered, share_line, request_wire, submit_share-IsAnswered}
use btccpu.Tests.Numbers.{whole_numbers}
use btccpu.Tests.Codec.{
  encode, decode, encode_tree, encode_row, encode_table, run, command, append_char, end_words,
  end_row, end_table, add_cell, add_member,
}
use btccpu.Tests.Pool.{
  Tree, nothing, truth, whole, words, row, table, row_of, bare, entry, trees, trees-IsJson, wire,
  joined, wire-IsConnection,
}

abbrev job_message : NotifyMessage
job_message = record {
  job_id = b'j' ∷ [];
  prevhash = b'0' ∷ b'1' ∷ [];
  coinb1 = b'0' ∷ b'2' ∷ [];
  coinb2 = b'0' ∷ b'3' ∷ [];
  merkle_branch = (b'0' ∷ b'4' ∷ []) ∷ (b'0' ∷ b'5' ∷ []) ∷ [];
  version = b'2' ∷ b'0' ∷ [];
  nbits = b'1' ∷ b'7' ∷ [];
  ntime = b'6' ∷ b'9' ∷ [];
  clean_jobs = true;
}

abbrev subscribe_answer : Tree
subscribe_answer = table (
    entry id_key (whole (pos 1)) (
      entry result_key (row (row_of (nothing ∷ words (b'3' ∷ b'f' ∷ []) ∷ whole (pos 2) ∷ [])))
        bare))

abbrev yes_answer : Tree
yes_answer = table (entry id_key (whole (pos 4)) (entry result_key (truth true) bare))

abbrev other_answer : Tree
other_answer = table (entry id_key (whole (pos 3)) (entry result_key (truth true) bare))

abbrev job_params : List Tree
job_params =
    words job_message.job_id
    ∷ words job_message.prevhash
    ∷ words job_message.coinb1
    ∷ words job_message.coinb2
    ∷ row (row_of (words (b'0' ∷ b'4' ∷ []) ∷ words (b'0' ∷ b'5' ∷ []) ∷ []))
    ∷ words job_message.version
    ∷ words job_message.nbits
    ∷ words job_message.ntime
    ∷ truth true
    ∷ []

abbrev job_notice : Tree
job_notice =
    table (entry method_key (words notify_method) (entry params_key (row (row_of job_params)) bare))

-- Lines of one letter: a subscription, a job, and two answers.
abbrev lookup : List ℕ → Option Tree
lookup line =
    if equal_text line (b's' ∷ [])
    then some subscribe_answer
    else if equal_text line (b'n' ∷ [])
    then some job_notice
    else if equal_text line (b'y' ∷ [])
    then some yes_answer
    else if equal_text line (b'o' ∷ [])
    then some other_answer
    else none

abbrev pub pool : Json ℕ
pool = trees lookup (λ t. b'r' ∷ [])

-- A client with what it is to read.
abbrev pub client_with : ℕ → List (List ℕ) → Client whole_numbers pool wire
client_with next_id reads = record {
  host = [];
  port = [];
  socket = reads;
  buffer = [];
  next_id = next_id;
  subscription = none;
  current_job = none;
  difficulty = 1;
  worker_name = b'w' ∷ [];
  last_raw_incoming = [];
  last_raw_outgoing = [];
  last_raw_notify = [];
  last_parsed_summary = [];
}

parse_incoming_message-authorize_response_example :
    parse_incoming_message whole_numbers pool (b'y' ∷ [])
    ≢ some (authorize_response (record { id = pos 4; accepted = true }))
parse_incoming_message-authorize_response_example =
    parse_incoming_message-authorize_response whole_numbers pool (b'y' ∷ [])
      (record { id = pos 4; accepted = true })

parse_incoming_message-bool_example :
    (answer : SubmitResponse) × (parse_incoming_message whole_numbers pool (b'y' ∷ [])
      ≡ some (submit_response answer))
    × (answer.id ≡ pos 4)
    × (answer.accepted ≡ true)
    × TellsError whole_numbers pool
        (entry id_key (whole (pos 4)) (entry result_key (truth true) bare))
        answer
unfolding fits_int
parse_incoming_message-bool_example =
    parse_incoming_message-bool whole_numbers pool (b'y' ∷ []) yes_answer
      (entry id_key (whole (pos 4)) (entry result_key (truth true) bare)) (pos 4) (whole (pos 4))
      (truth true) true refl refl refl refl refl refl refl refl

parse_incoming_message-notify_params_example :
    parse_incoming_message whole_numbers pool (b'n' ∷ []) ≡ some (notify job_message)
parse_incoming_message-notify_params_example =
    parse_incoming_message-notify_params whole_numbers pool (b'n' ∷ [])
      (entry method_key (words notify_method) (entry params_key (row (row_of job_params)) bare))
      job_message [] (trees-IsJson lookup (λ t. b'r' ∷ []))
      (record {
        job_id = (omega arith, tt);
        prevhash = (omega arith, (omega arith, tt));
        coinb1 = (omega arith, (omega arith, tt));
        coinb2 = (omega arith, (omega arith, tt));
        merkle_branch = ((omega arith, (omega arith, tt)), ((omega arith, (omega arith, tt)), tt));
        version = (omega arith, (omega arith, tt));
        nbits = (omega arith, (omega arith, tt));
        ntime = (omega arith, (omega arith, tt));
      })
      refl refl refl

abbrev share : ShareSubmission
share = record {
  job_id = b'j' ∷ [];
  extranonce2_hex = b'0' ∷ b'0' ∷ [];
  ntime_hex = b'6' ∷ b'9' ∷ [];
  nonce_hex = b'0' ∷ b'7' ∷ [];
}

abbrev request : SubmitShareRequest
request = share_request whole_numbers pool wire share (client_with 4 [])

-- A pool whose JSON texts are those of Tests.Codec.
abbrev speaker : Json ℕ
speaker = trees decode encode

parse-submit_wire_example :
    (obj : speaker.Object) × (speaker.parse (submit_wire whole_numbers speaker request (pos 4))
      ≡ some (speaker.value (object obj)))
    × (speaker.find obj id_key ≡ some (whole (pos 4)))
    × (speaker.find obj method_key ≡ some (words submit_method))
    × (speaker.find obj params_key
        ≡ some (
            row (
              row_of (
                words (b'w' ∷ [])
                ∷ words share.job_id
                ∷ words share.extranonce2_hex
                ∷ words share.ntime_hex
                ∷ words share.nonce_hex
                ∷ []))))
unfolding share_request encode decode encode_tree encode_row encode_table run command append_char
    end_words end_row end_table add_cell add_member
parse-submit_wire_example =
    parse-submit_wire whole_numbers speaker request (pos 4) (trees-IsJson _ _) refl

-- "n\r\no\ny\nx", in three reads.
abbrev pub reads : List (List ℕ)
reads = (b'n' ∷ 13 ∷ []) ∷ (10 ∷ b'o' ∷ 10 ∷ b'y' ∷ []) ∷ (10 ∷ b'x' ∷ []) ∷ []

abbrev pub talker : Client whole_numbers pool wire
talker = client_with 4 reads

talker_reads : is_ok (read_line whole_numbers pool wire talker) ≡ true
unfolding read_line get_line strip_return
talker_reads = refl

abbrev first_read : List ℕ × Client whole_numbers pool wire
first_read = get_ok (read_line whole_numbers pool wire talker) talker_reads

read_line-IsRead_example : IsRead whole_numbers pool wire joined talker first_read.1 first_read.0
read_line-IsRead_example =
    read_line-IsRead whole_numbers pool wire joined talker first_read.1 first_read.0
      wire-IsConnection (get_ok_lem (read_line whole_numbers pool wire talker) talker_reads)

run_until_ready-ends_example :
    (r : Result (Client whole_numbers pool wire)) × (run_until_ready whole_numbers pool wire 9
        talker
      ≡ some r)
run_until_ready-ends_example =
    run_until_ready-ends whole_numbers pool wire joined 9 talker wire-IsConnection (omega arith)

submit_share-ends_example :
    (r : Result (SubmitShareResult × Client whole_numbers pool wire)) × (submit_share whole_numbers
        pool wire 9 share talker
      ≡ some r)
submit_share-ends_example =
    submit_share-ends whole_numbers pool wire joined 9 share talker wire-IsConnection (omega arith)

-- What a loop returned.
abbrev pub has_value {ℓ} : {A : Type ℓ} → Option (Result A) → Bool
has_value none = false
has_value (some r) = is_ok r

abbrev pub value_of : {A : Type 0} (o : Option (Result A)) → has_value o ≡ true → A
value_of none h = absurd (false≢true h)
value_of (some r) h = get_ok r h

pub value_of_lem :
    {A : Type 0} (o : Option (Result A)) (h : has_value o ≡ true) → o ≡ some (ok (value_of o h))
value_of_lem none h = cc
value_of_lem (some r) h = ap (λ q. let o = some q in o) (get_ok_lem r h)

submission_returns : has_value (submit_share whole_numbers pool wire 9 share talker) ≡ true
unfolding submit_share submit_loop send_wire_message read_line get_line strip_return submit_round
    submit_message note_message apply_parsed_message parse_incoming_message parse_object
    parse_method_message parse_set_difficulty parse_notify parse_subscribe_response
    parse_submit_response parse_authorize_response parse_message_id parse_accepted parse_error
    parse_branches parse_size find_params_array json_string_at c_str fits_int
submission_returns = refl

abbrev submission : SubmitShareResult × Client whole_numbers pool wire
submission = value_of (submit_share whole_numbers pool wire 9 share talker) submission_returns

submit_share-IsAnswered_example :
    (sent : Client whole_numbers pool wire) × (send_wire_message whole_numbers pool wire
        (request_wire whole_numbers pool wire joined share talker)
        (count_id whole_numbers pool wire talker)
      ≡ ok sent)
    × (wire.write talker.socket (share_line whole_numbers pool wire joined share talker)
        ≡ ok sent.socket)
    × (sent.next_id ≡ 4 + 1)
    × (session whole_numbers pool wire sent ≡ session whole_numbers pool wire talker)
    × IsAnswered whole_numbers pool wire joined
        (pos 4)
        (request_wire whole_numbers pool wire joined share talker)
        sent
        submission.1
        submission.0
submit_share-IsAnswered_example =
    submit_share-IsAnswered whole_numbers pool wire joined 9 share talker submission.1 submission.0
      wire-IsConnection
      (value_of_lem (submit_share whole_numbers pool wire 9 share talker) submission_returns)

-- A subscription, then a job.
abbrev pub listener : Client whole_numbers pool wire
listener = client_with 4 ((b's' ∷ 10 ∷ b'n' ∷ []) ∷ (10 ∷ []) ∷ [])

pub becomes_ready : has_value (run_until_ready whole_numbers pool wire 9 listener) ≡ true
unfolding run_until_ready ready read_line get_line strip_return handle_message note_message
    apply_parsed_message parse_incoming_message parse_object parse_method_message
    parse_set_difficulty parse_notify parse_subscribe_response parse_submit_response
    parse_authorize_response parse_message_id parse_accepted parse_error parse_branches parse_size
    find_params_array json_string_at c_str fits_int
becomes_ready = refl

abbrev pub ready_client : Client whole_numbers pool wire
ready_client = value_of (run_until_ready whole_numbers pool wire 9 listener) becomes_ready

run_until_ready-replay_example :
    (ready_client.subscription ≢ none)
    × (ready_client.current_job ≢ none)
    × (lines : List (List ℕ)) × Spells lines
        (pending whole_numbers pool wire joined listener)
        (pending whole_numbers pool wire joined ready_client)
    × (session whole_numbers pool wire ready_client
        ≡ replay whole_numbers pool wire lines (session whole_numbers pool wire listener))
run_until_ready-replay_example =
    run_until_ready-replay whole_numbers pool wire joined 9 listener ready_client wire-IsConnection
      (value_of_lem (run_until_ready whole_numbers pool wire 9 listener) becomes_ready)

not_invalidated :
    (handle_message whole_numbers pool wire (b'y' ∷ []) talker).0.work_invalidated ≡ false
unfolding handle_message note_message apply_parsed_message parse_incoming_message parse_object
    parse_method_message parse_subscribe_response parse_submit_response parse_authorize_response
    parse_message_id parse_accepted parse_error c_str fits_int
not_invalidated = refl

handle_message-invalidates_example :
    ((handle_message whole_numbers pool wire (b'y' ∷ []) talker).1.current_job ≡ none)
    × ((handle_message whole_numbers pool wire (b'y' ∷ []) talker).1.difficulty ≡ talker.difficulty)
handle_message-invalidates_example =
    handle_message-invalidates whole_numbers pool wire (b'y' ∷ []) talker not_invalidated
