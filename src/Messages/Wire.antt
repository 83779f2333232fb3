-- ===== src/Messages/Wire.antt =====
-- src/stratum_client/messages.cpp: the texts of the requests.
use btccpu.Prelude.{ℕ, ℤ, List, [], ◌∷◌}
use btccpu.Target.{FloatingPoint}
use btccpu.Json.{Json, int64, double, string, array, object}
use btccpu.Messages.{SuggestDifficultyRequest, AuthorizeRequest, SubmitShareRequest}
use btccpu.Messages.Parse.{id_key, method_key, params_key}

-- "mining.subscribe"
abbrev pub subscribe_method : List ℕ
subscribe_method =
    (b'm' ∷ b'i' ∷ b'n' ∷ b'i' ∷ b'n' ∷ b'g' ∷ b'.' ∷ b's' ∷ b'u' ∷ b'b' ∷ b's' ∷ b'c' ∷ b'r' ∷ b'i'
      ∷ b'b' ∷ b'e' ∷ [])

-- "mining.suggest_difficulty"
abbrev pub suggest_difficulty_method : List ℕ
suggest_difficulty_method =
    (b'm' ∷ b'i' ∷ b'n' ∷ b'i' ∷ b'n' ∷ b'g' ∷ b'.' ∷ b's' ∷ b'u' ∷ b'g' ∷ b'g' ∷ b'e' ∷ b's' ∷ b't'
      ∷ b'_' ∷ b'd' ∷ b'i' ∷ b'f' ∷ b'f' ∷ b'i' ∷ b'c' ∷ b'u' ∷ b'l' ∷ b't' ∷ b'y' ∷ [])

-- "mining.authorize"
abbrev pub authorize_method : List ℕ
authorize_method =
    (b'm' ∷ b'i' ∷ b'n' ∷ b'i' ∷ b'n' ∷ b'g' ∷ b'.' ∷ b'a' ∷ b'u' ∷ b't' ∷ b'h' ∷ b'o' ∷ b'r' ∷ b'i'
      ∷ b'z' ∷ b'e' ∷ [])

-- "mining.submit"
abbrev pub submit_method : List ℕ
submit_method =
    (b'm' ∷ b'i' ∷ b'n' ∷ b'i' ∷ b'n' ∷ b'g' ∷ b'.' ∷ b's' ∷ b'u' ∷ b'b' ∷ b'm' ∷ b'i' ∷ b't' ∷ [])

module _ (f : FloatingPoint) (json : Json f.Double) where
  -- The object of every request: an `int` is an `int64`.
  unfoldable pub request_object : ℤ → List ℕ → List json.Value → json.Object
  request_object id method params =
      json.assign
        (json.assign (json.assign json.empty_object id_key (json.value (int64 id))) method_key
          (json.value (string method)))
        params_key (json.value (array params))

  -- `to_wire_message` of a `SubscribeRequest`.
  unfoldable pub subscribe_wire : ℤ → List ℕ
  subscribe_wire id = json.serialize (json.value (object (request_object id subscribe_method [])))

  -- `to_wire_message` of a `SuggestDifficultyRequest`.
  unfoldable pub suggest_difficulty_wire : SuggestDifficultyRequest f.Double → ℤ → List ℕ
  suggest_difficulty_wire request id = json.serialize (
      json.value (
        object (
          request_object id suggest_difficulty_method
            (json.value (double request.difficulty) ∷ []))))

  -- `to_wire_message` of an `AuthorizeRequest`.
  unfoldable pub authorize_wire : AuthorizeRequest → ℤ → List ℕ
  authorize_wire request id = json.serialize (
      json.value (
        object (
          request_object id authorize_method
            (json.value (string request.user) ∷ json.value (string request.password) ∷ []))))

  -- The message of a `SubmitShareRequest`.
  unfoldable pub submit_object : SubmitShareRequest → ℤ → json.Object
  submit_object request id = request_object id submit_method (
      json.value (string request.worker_name)
      ∷ json.value (string request.job_id)
      ∷ json.value (string request.extranonce2_hex)
      ∷ json.value (string request.ntime_hex)
      ∷ json.value (string request.nonce_hex)
      ∷ [])

  -- `to_wire_message` of a `SubmitShareRequest`.
  unfoldable pub submit_wire : SubmitShareRequest → ℤ → List ℕ
  submit_wire request id = json.serialize (json.value (object (submit_object request id)))
