-- ===== src/Messages/Summary.antt =====
-- src/stratum_client/messages.cpp: the summaries. What `<<` prints of a `double` is a parameter.
use btccpu.Prelude.{
  ℕ, ℤ, pos, negsuc, zero, suc, ◌+◌, ◌/◌, ◌%◌, Bool, true, false, List, [], ◌∷◌, ◌++◌, length, ltb,
  if◌then◌else◌,
}
use btccpu.Target.{FloatingPoint}
use btccpu.Messages.{
  SetDifficultyMessage, NotifyMessage, SubscribeResponse, AuthorizeResponse, SubmitResponse,
  UnknownMessage, IncomingMessage, unknown, set_difficulty, notify, subscribe_response,
  authorize_response, submit_response,
}

-- `<<` of an integer: its decimal digits before those that are there. A number has fewer digits
-- than `rounds`.
unfoldable pub decimal_loop : ℕ → ℕ → List ℕ → List ℕ
decimal_loop zero n digits = digits
decimal_loop (suc rounds) n digits =
    let more = decimal_loop rounds (n / 10) ((b'0' + n % 10) ∷ digits) in
    if ltb n 10 then (b'0' + n % 10) ∷ digits else more

-- 20 digits are enough for 64 bits.
unfoldable pub decimal : ℕ → List ℕ
decimal n = decimal_loop 20 n []

unfoldable pub decimal_int : ℤ → List ℕ
decimal_int (pos n) = decimal n
decimal_int (negsuc n) = b'-' ∷ decimal (suc n)

unfoldable pub bool_text : Bool → List ℕ
bool_text true = (b't' ∷ b'r' ∷ b'u' ∷ b'e' ∷ [])
bool_text false = (b'f' ∷ b'a' ∷ b'l' ∷ b's' ∷ b'e' ∷ [])

abbrev end_line : List ℕ
end_line = 10 ∷ []

-- The line of the first branch, if there is one.
unfoldable pub first_branch_line : List (List ℕ) → List ℕ
first_branch_line [] = []
first_branch_line (branch ∷ branches) =
    (32 ∷ 32 ∷ b'f' ∷ b'i' ∷ b'r' ∷ b's' ∷ b't' ∷ 32 ∷ b'b' ∷ b'r' ∷ b'a' ∷ b'n' ∷ b'c' ∷ b'h'
      ∷ b':' ∷ 32 ∷ 32 ∷ [])
    ++ branch
    ++ end_line

unfoldable pub notify_summary : NotifyMessage → List ℕ
notify_summary msg =
    (b'n' ∷ b'o' ∷ b't' ∷ b'i' ∷ b'f' ∷ b'y' ∷ b':' ∷ 10 ∷ [])
    ++ (32 ∷ 32 ∷ b'j' ∷ b'o' ∷ b'b' ∷ b'_' ∷ b'i' ∷ b'd' ∷ b':' ∷ 32 ∷ 32 ∷ 32 ∷ 32 ∷ 32 ∷ 32 ∷ 32
        ∷ 32 ∷ [])
    ++ msg.job_id
    ++ end_line
    ++ (32 ∷ 32 ∷ b'p' ∷ b'r' ∷ b'e' ∷ b'v' ∷ b'h' ∷ b'a' ∷ b's' ∷ b'h' ∷ b':' ∷ 32 ∷ 32 ∷ 32 ∷ 32
        ∷ 32 ∷ 32 ∷ [])
    ++ msg.prevhash
    ++ end_line
    ++ (32 ∷ 32 ∷ b'c' ∷ b'o' ∷ b'i' ∷ b'n' ∷ b'b' ∷ b'1' ∷ 32 ∷ b'b' ∷ b'y' ∷ b't' ∷ b'e' ∷ b's'
        ∷ b':' ∷ 32 ∷ 32 ∷ [])
    ++ decimal (length msg.coinb1 / 2)
    ++ end_line
    ++ (32 ∷ 32 ∷ b'c' ∷ b'o' ∷ b'i' ∷ b'n' ∷ b'b' ∷ b'2' ∷ 32 ∷ b'b' ∷ b'y' ∷ b't' ∷ b'e' ∷ b's'
        ∷ b':' ∷ 32 ∷ 32 ∷ [])
    ++ decimal (length msg.coinb2 / 2)
    ++ end_line
    ++ (32 ∷ 32 ∷ b'b' ∷ b'r' ∷ b'a' ∷ b'n' ∷ b'c' ∷ b'h' ∷ b'e' ∷ b's' ∷ b':' ∷ 32 ∷ 32 ∷ 32 ∷ 32
        ∷ 32 ∷ 32 ∷ [])
    ++ decimal (length msg.merkle_branch)
    ++ end_line
    ++ (32 ∷ 32 ∷ b'v' ∷ b'e' ∷ b'r' ∷ b's' ∷ b'i' ∷ b'o' ∷ b'n' ∷ b':' ∷ 32 ∷ 32 ∷ 32 ∷ 32 ∷ 32
        ∷ 32 ∷ 32 ∷ [])
    ++ msg.version
    ++ end_line
    ++ (32 ∷ 32 ∷ b'n' ∷ b'b' ∷ b'i' ∷ b't' ∷ b's' ∷ b':' ∷ 32 ∷ 32 ∷ 32 ∷ 32 ∷ 32 ∷ 32 ∷ 32 ∷ 32
        ∷ 32 ∷ [])
    ++ msg.nbits
    ++ end_line
    ++ (32 ∷ 32 ∷ b'n' ∷ b't' ∷ b'i' ∷ b'm' ∷ b'e' ∷ b':' ∷ 32 ∷ 32 ∷ 32 ∷ 32 ∷ 32 ∷ 32 ∷ 32 ∷ 32
        ∷ 32 ∷ [])
    ++ msg.ntime
    ++ end_line
    ++ (32 ∷ 32 ∷ b'c' ∷ b'l' ∷ b'e' ∷ b'a' ∷ b'n' ∷ b'_' ∷ b'j' ∷ b'o' ∷ b'b' ∷ b's' ∷ b':' ∷ 32
        ∷ 32 ∷ 32 ∷ 32 ∷ [])
    ++ bool_text msg.clean_jobs
    ++ end_line
    ++ first_branch_line msg.merkle_branch

unfoldable pub subscribe_summary : SubscribeResponse → List ℕ
subscribe_summary msg =
    (b's' ∷ b'u' ∷ b'b' ∷ b's' ∷ b'c' ∷ b'r' ∷ b'i' ∷ b'b' ∷ b'e' ∷ b':' ∷ 10 ∷ [])
    ++ (32 ∷ 32 ∷ b'i' ∷ b'd' ∷ b':' ∷ 32 ∷ 32 ∷ 32 ∷ 32 ∷ 32 ∷ 32 ∷ 32 ∷ 32 ∷ 32 ∷ 32 ∷ 32 ∷ 32
        ∷ 32 ∷ 32 ∷ 32 ∷ [])
    ++ decimal_int msg.id
    ++ end_line
    ++ (32 ∷ 32 ∷ b'e' ∷ b'x' ∷ b't' ∷ b'r' ∷ b'a' ∷ b'n' ∷ b'o' ∷ b'n' ∷ b'c' ∷ b'e' ∷ b'1' ∷ b':'
        ∷ 32 ∷ 32 ∷ 32 ∷ 32 ∷ 32 ∷ 32 ∷ [])
    ++ msg.extranonce1
    ++ end_line
    ++ (32 ∷ 32 ∷ b'e' ∷ b'x' ∷ b't' ∷ b'r' ∷ b'a' ∷ b'n' ∷ b'o' ∷ b'n' ∷ b'c' ∷ b'e' ∷ b'2' ∷ b'_'
        ∷ b's' ∷ b'i' ∷ b'z' ∷ b'e' ∷ b':' ∷ 32 ∷ [])
    ++ decimal msg.extranonce2_size
    ++ (32 ∷ b'b' ∷ b'y' ∷ b't' ∷ b'e' ∷ b's' ∷ 10 ∷ [])

unfoldable pub authorize_summary : AuthorizeResponse → List ℕ
authorize_summary msg =
    (b'a' ∷ b'u' ∷ b't' ∷ b'h' ∷ b'o' ∷ b'r' ∷ b'i' ∷ b'z' ∷ b'e' ∷ b':' ∷ 10 ∷ [])
    ++ (32 ∷ 32 ∷ b'i' ∷ b'd' ∷ b':' ∷ 32 ∷ 32 ∷ 32 ∷ 32 ∷ 32 ∷ 32 ∷ 32 ∷ [])
    ++ decimal_int msg.id
    ++ end_line
    ++ (32 ∷ 32 ∷ b'a' ∷ b'c' ∷ b'c' ∷ b'e' ∷ b'p' ∷ b't' ∷ b'e' ∷ b'd' ∷ b':' ∷ 32 ∷ [])
    ++ bool_text msg.accepted
    ++ end_line

unfoldable pub submit_summary : SubmitResponse → List ℕ
submit_summary msg =
    (b's' ∷ b'u' ∷ b'b' ∷ b'm' ∷ b'i' ∷ b't' ∷ b':' ∷ 10 ∷ [])
    ++ (32 ∷ 32 ∷ b'i' ∷ b'd' ∷ b':' ∷ 32 ∷ 32 ∷ 32 ∷ 32 ∷ 32 ∷ 32 ∷ 32 ∷ 32 ∷ [])
    ++ decimal_int msg.id
    ++ end_line
    ++ (32 ∷ 32 ∷ b'a' ∷ b'c' ∷ b'c' ∷ b'e' ∷ b'p' ∷ b't' ∷ b'e' ∷ b'd' ∷ b':' ∷ 32 ∷ 32 ∷ [])
    ++ bool_text msg.accepted
    ++ end_line
    ++ (32 ∷ 32 ∷ b'h' ∷ b'a' ∷ b's' ∷ b'_' ∷ b'e' ∷ b'r' ∷ b'r' ∷ b'o' ∷ b'r' ∷ b':' ∷ 32 ∷ [])
    ++ bool_text msg.has_error
    ++ end_line
    ++ (if msg.has_error
        then (32 ∷ 32 ∷ b'e' ∷ b'r' ∷ b'r' ∷ b'o' ∷ b'r' ∷ b':' ∷ 32 ∷ 32 ∷ 32 ∷ 32 ∷ 32 ∷ [])
          ++ msg.error_text
          ++ end_line
        else [])

unfoldable pub unknown_summary : UnknownMessage → List ℕ
unknown_summary msg =
    (b'u' ∷ b'n' ∷ b'k' ∷ b'n' ∷ b'o' ∷ b'w' ∷ b'n' ∷ b':' ∷ 10 ∷ [])
    ++ (32 ∷ 32 ∷ b'r' ∷ b'a' ∷ b'w' ∷ b':' ∷ 32 ∷ [])
    ++ msg.raw
    ++ end_line

module _ (f : FloatingPoint) where
  unfoldable pub set_difficulty_summary : SetDifficultyMessage f.Double → List ℕ
  set_difficulty_summary msg =
      (b's' ∷ b'e' ∷ b't' ∷ b'_' ∷ b'd' ∷ b'i' ∷ b'f' ∷ b'f' ∷ b'i' ∷ b'c' ∷ b'u' ∷ b'l' ∷ b't'
        ∷ b'y' ∷ b':' ∷ 10 ∷ [])
      ++ (32 ∷ 32 ∷ b'd' ∷ b'i' ∷ b'f' ∷ b'f' ∷ b'i' ∷ b'c' ∷ b'u' ∷ b'l' ∷ b't' ∷ b'y' ∷ b':' ∷ 32
          ∷ [])
      ++ f.print msg.difficulty
      ++ end_line

  unfoldable pub debug_summary : IncomingMessage f.Double → List ℕ
  debug_summary (unknown m) = unknown_summary m
  debug_summary (set_difficulty m) = set_difficulty_summary m
  debug_summary (notify m) = notify_summary m
  debug_summary (subscribe_response m) = subscribe_summary m
  debug_summary (authorize_response m) = authorize_summary m
  debug_summary (submit_response m) = submit_summary m
