-- ===== src/Messages/Parse.antt =====
-- src/stratum_client/messages.cpp: the parsers of the pool's messages.
use btccpu.Prelude.{
  ℕ, ◌-◌, ℤ, pos, negsuc, ◌^◌, Bool, true, false, List, [], ◌∷◌, Option, none, some, leb, ltb, ◌==◌,
  if◌then◌else◌, equal_text, length, get_elem?,
}
use btccpu.Prelude.Options.{◌>>=◌, ◌>>◌, require, or_else}
use btccpu.Target.{FloatingPoint}
use btccpu.Json.{null, boolean, int64, uint64, double, object, Json, as_array, as_string, as_bool}
use btccpu.Messages.{
  SetDifficultyMessage, NotifyMessage, SubscribeResponse, AuthorizeResponse, SubmitResponse,
  IncomingMessage, unknown, set_difficulty, notify, subscribe_response, authorize_response,
  submit_response,
}

-- `std::string(s.c_str())` ends at the first zero.
unfoldable pub c_str : List ℕ → List ℕ
c_str [] = []
c_str (c ∷ s) = if c == 0 then [] else c ∷ c_str s

-- The range of `int`.
unfoldable pub fits_int : ℤ → Bool
fits_int (pos n) = leb n (2 ^ 31 - 1)
fits_int (negsuc n) = ltb n (2 ^ 31)

abbrev pub params_key : List ℕ
params_key = (b'p' ∷ b'a' ∷ b'r' ∷ b'a' ∷ b'm' ∷ b's' ∷ [])

abbrev pub id_key : List ℕ
id_key = (b'i' ∷ b'd' ∷ [])

abbrev pub method_key : List ℕ
method_key = (b'm' ∷ b'e' ∷ b't' ∷ b'h' ∷ b'o' ∷ b'd' ∷ [])

abbrev pub result_key : List ℕ
result_key = (b'r' ∷ b'e' ∷ b's' ∷ b'u' ∷ b'l' ∷ b't' ∷ [])

abbrev pub error_key : List ℕ
error_key = (b'e' ∷ b'r' ∷ b'r' ∷ b'o' ∷ b'r' ∷ [])

-- "mining.set_difficulty"
abbrev pub set_difficulty_method : List ℕ
set_difficulty_method =
    (b'm' ∷ b'i' ∷ b'n' ∷ b'i' ∷ b'n' ∷ b'g' ∷ b'.' ∷ b's' ∷ b'e' ∷ b't' ∷ b'_' ∷ b'd' ∷ b'i' ∷ b'f'
      ∷ b'f' ∷ b'i' ∷ b'c' ∷ b'u' ∷ b'l' ∷ b't' ∷ b'y' ∷ [])

-- "mining.notify"
abbrev pub notify_method : List ℕ
notify_method =
    (b'm' ∷ b'i' ∷ b'n' ∷ b'i' ∷ b'n' ∷ b'g' ∷ b'.' ∷ b'n' ∷ b'o' ∷ b't' ∷ b'i' ∷ b'f' ∷ b'y' ∷ [])

module _ (f : FloatingPoint) (json : Json f.Double) where
  unfoldable pub find_params_array : json.Object → Option (List json.Value)
  find_params_array obj = do params ← json.find obj params_key; as_array json params

  unfoldable pub json_string_at : List json.Value → ℕ → Option (List ℕ)
  json_string_at a index = do v ← get_elem? a index; s ← as_string json v; some (c_str s)

  unfoldable pub parse_message_id : json.Object → Option ℤ
  parse_message_id obj = do
    id_value ← json.find obj id_key
    elim (json.kind id_value) [ int64 id ↦ if fits_int id then some id else none | _ ↦ none ]

  unfoldable pub parse_set_difficulty : json.Object → Option (SetDifficultyMessage f.Double)
  parse_set_difficulty obj = do
    params ← find_params_array obj
    v ← get_elem? params 0
    elim (json.kind v) [
      | double d ↦ some (record { difficulty = d })
      | int64 i ↦ some (record { difficulty = f.from_i64 i })
      | uint64 n ↦ some (record { difficulty = f.from_u64 n })
      | _ ↦ none
    ]

  -- The loop over the branches.
  unfoldable pub parse_branches : List json.Value → Option (List (List ℕ))
  parse_branches [] = some []
  parse_branches (branch ∷ branches) = do
    s ← as_string json branch
    merkle_branch ← parse_branches branches
    some (c_str s ∷ merkle_branch)

  -- The tests come in another order than in the source: each of them answers `std::nullopt`.
  unfoldable pub parse_notify : json.Object → Option NotifyMessage
  parse_notify obj = do
    params ← find_params_array obj
    require (leb 9 (length params))
    job_id ← json_string_at params 0
    prevhash ← json_string_at params 1
    coinb1 ← json_string_at params 2
    coinb2 ← json_string_at params 3
    branch_values ← get_elem? params 4
    branches ← as_array json branch_values
    version ← json_string_at params 5
    nbits ← json_string_at params 6
    ntime ← json_string_at params 7
    clean ← get_elem? params 8
    clean_jobs ← as_bool json clean
    merkle_branch ← parse_branches branches
    some (record {
      job_id = job_id;
      prevhash = prevhash;
      coinb1 = coinb1;
      coinb2 = coinb2;
      merkle_branch = merkle_branch;
      version = version;
      nbits = nbits;
      ntime = ntime;
      clean_jobs = clean_jobs;
    })

  -- The size of the second extranonce, as `std::size_t`.
  unfoldable pub parse_size : json.Value → Option ℕ
  parse_size v = elim (json.kind v) [ uint64 n ↦ some n | int64 (pos n) ↦ some n | _ ↦ none ]

  unfoldable pub parse_subscribe_response : json.Object → Option SubscribeResponse
  parse_subscribe_response obj = do
    id ← parse_message_id obj
    result_value ← json.find obj result_key
    result ← as_array json result_value
    require (leb 3 (length result))
    extranonce1 ← json_string_at result 1
    size_value ← get_elem? result 2
    extranonce2_size ← parse_size size_value
    some (record { id = id; extranonce1 = extranonce1; extranonce2_size = extranonce2_size })

  unfoldable pub parse_authorize_response : json.Object → Option AuthorizeResponse
  parse_authorize_response obj = do
    id ← parse_message_id obj
    result ← json.find obj result_key
    accepted ← as_bool json result
    some (record { id = id; accepted = accepted })

  -- `accepted`: a boolean result, or none at all, or null.
  unfoldable pub parse_accepted : json.Object → Option Bool
  parse_accepted obj = elim (json.find obj result_key) [
    | none ↦ some false
    | some result ↦ elim (json.kind result) [ boolean b ↦ some b | null ↦ some false | _ ↦ none ]
  ]

  -- `has_error`, and the text.
  unfoldable pub parse_error : json.Object → Bool × List ℕ
  parse_error obj = elim (json.find obj error_key) [
    | none ↦ (false, [])
    | some error ↦ elim (json.kind error) [ null ↦ (false, []) | _ ↦ (true, json.serialize error) ]
  ]

  unfoldable pub parse_submit_response : json.Object → Option SubmitResponse
  parse_submit_response obj = do
    id ← parse_message_id obj
    accepted ← parse_accepted obj
    let (has_error, error_text) = parse_error obj
    some (record { id = id; accepted = accepted; has_error = has_error; error_text = error_text })

  unfoldable pub parse_method_message : json.Object → Option (IncomingMessage f.Double)
  parse_method_message obj = do
    method_value ← json.find obj method_key
    s ← as_string json method_value
    let method = c_str s
    if equal_text method set_difficulty_method
        then (parse_set_difficulty obj >>= λ msg. some (set_difficulty msg))
        else if equal_text method notify_method
        then (parse_notify obj >>= λ msg. some (notify msg))
        else some (unknown (record { raw = json.serialize (json.value (object obj)) }))

  -- What the message of an object is.
  unfoldable pub parse_object : List ℕ → json.Object → Option (IncomingMessage f.Double)
  parse_object line obj = or_else (parse_method_message obj) (
      or_else (parse_subscribe_response obj >>= λ msg. some (subscribe_response msg)) (
        or_else (parse_submit_response obj >>= λ msg. some (submit_response msg)) (
          or_else (parse_authorize_response obj >>= λ msg. some (authorize_response msg))
            (some (unknown (record { raw = line }))))))

  unfoldable pub parse_incoming_message : List ℕ → Option (IncomingMessage f.Double)
  parse_incoming_message line = do
    value ← json.parse line
    elim (json.kind value) [ object obj ↦ parse_object line obj | _ ↦ none ]
