-- ===== src/Client/Answers.antt =====
-- src/stratum_client/stratum_client.cpp: `submit_share` as a request to the pool, and its answer.
use btccpu.Prelude.{
  ℕ, ◌≤◌, length, length-append, zero, suc, ℤ, pos, ◌+◌, ◌≡◌, refl, sym, ap, subst, ◌∙◌, true,
  false, List, [], ◌∷◌, ◌++◌, All, some, Bool-cases, Result-cases, inl, inr, is_nil, Error, ok, err,
  Result, runtime_error, ok-injective, >>=-eq-ok, arith,
}
use mathlib.Core.Option.{some-injective}
use btccpu.Job.{ShareSubmission}
use btccpu.Target.{FloatingPoint}
use btccpu.Json.{Json}
use btccpu.Connection.{Connection, IsConnection}
use btccpu.Messages.{SubmitResponse}
use btccpu.Messages.Wire.{submit_wire}
use btccpu.Client.{
  StratumClient, SubmitShareResult, Client, read_line, again, answered, submit_round, submit_loop,
  send_wire_message, count_id, share_request, submit_share,
}
use btccpu.Client.Lines.{
  send_wire_message-pending, pending, IsRead, read_line-IsRead, SubmitRound-cases,
  submit_round-GoesOn, GoesOn,
}
use btccpu.Client.Session.{Spells, session, deliver_line, replay}
use btccpu.Client.Rounds.{IsAnswer, IsOther, RoundLem, submit_round_lem}

module _ (f : FloatingPoint) (json : Json f.Double) (c : Connection)
    (to_come : c.Socket → List ℕ) where
  -- The pool answered the request after other lines.
  pub record IsAnswered (submit_id : ℤ) (wire : List ℕ) (client end : Client f json c)
      (result : SubmitShareResult) : Type 0 where
    pub before : List (List ℕ)
    pub answer : List ℕ
    pub response : SubmitResponse
    pub spells :
        Spells
          (before ++ (answer ∷ []))
          (pending f json c to_come client)
          (pending f json c to_come end)
    pub others : All (IsOther f json c submit_id) before
    pub answers : IsAnswer f json c submit_id answer response
    pub returns : result ≡ record {
      accepted = response.accepted;
      error_text = response.error_text;
      raw_request = wire;
      raw_response = answer;
    }
    pub tells : session f json c end ≡ replay f json c before (session f json c client)

  pub session-IsRead :
      (client read : Client f json c) (line : List ℕ)
      → IsRead f json c to_come client read line
      → session f json c read ≡ session f json c client
  session-IsRead client read line x = ap (session f json c) x.keeps

  submit_loop-err :
      (rounds : ℕ) (submit_id : ℤ) (wire : List ℕ) (client : Client f json c) (e : Error)
      → read_line f json c client ≡ err e
      → submit_loop f json c (suc rounds) submit_id wire client ≡ some (err e)
  unfolding submit_loop
  submit_loop-err rounds submit_id wire client e throws = rw (throws, submit_loop) refl

  submit_loop-again :
      (rounds : ℕ) (submit_id : ℤ) (wire line : List ℕ) (client read next : Client f json c)
      → read_line f json c client ≡ ok (line, read)
      → submit_round f json c submit_id wire line read ≡ again next
      → submit_loop f json c (suc rounds) submit_id wire client
        ≡ submit_loop f json c rounds submit_id wire next
  unfolding submit_loop
  submit_loop-again rounds submit_id wire line client read next reads e =
      rw (reads, e, submit_loop) refl

  submit_loop-answered :
      (rounds : ℕ) (submit_id : ℤ) (wire line : List ℕ) (client read next : Client f json c)
      (result : SubmitShareResult)
      → read_line f json c client ≡ ok (line, read)
      → submit_round f json c submit_id wire line read ≡ answered result next
      → submit_loop f json c (suc rounds) submit_id wire client ≡ some (ok (result, next))
  unfolding submit_loop
  submit_loop-answered rounds submit_id wire line client read next result reads e =
      rw (reads, e, submit_loop) refl

  -- A line that does not answer, before the rest of the loop.
  IsAnswered-again :
      (submit_id : ℤ) (wire line : List ℕ) (client read next end : Client f json c)
      (result : SubmitShareResult)
      → IsRead f json c to_come client read line
      → RoundLem f json c submit_id wire line read (again next)
      → pending f json c to_come next ≡ pending f json c to_come read
      → IsAnswered submit_id wire next end result
      → IsAnswered submit_id wire client end result
  IsAnswered-again submit_id wire line client read next end result x (told, other) same a = record {
    before = line ∷ a.before;
    answer = a.answer;
    response = a.response;
    spells = (
      x.raw,
      pending f json c to_come read,
      x.no_newline,
      x.stripped,
      x.splits,
      subst (λ t. Spells (a.before ++ (a.answer ∷ [])) t (pending f json c to_come end)) same
          a.spells,
    );
    others = (other, a.others);
    answers = a.answers;
    returns = a.returns;
    tells =
        a.tells
        ∙ ap (replay f json c a.before)
            (told ∙ ap (deliver_line f json c line) (session-IsRead client read line x));
  }

  -- The line that answers.
  IsAnswered-answered :
      (submit_id : ℤ) (wire line : List ℕ) (client read end : Client f json c)
      (result : SubmitShareResult)
      → IsRead f json c to_come client read line
      → RoundLem f json c submit_id wire line read (answered result end)
      → pending f json c to_come end ≡ pending f json c to_come read
      → IsAnswered submit_id wire client end result
  IsAnswered-answered submit_id wire line client read end result x (r, is_answer, returns, kept)
        same =
      record {
        before = [];
        answer = line;
        response = r;
        spells =
            (x.raw, pending f json c to_come read, x.no_newline, x.stripped, x.splits, sym same);
        others = tt;
        answers = is_answer;
        returns = returns;
        tells = kept ∙ session-IsRead client read line x;
      }

  submit_loop-IsAnswered :
      (rounds : ℕ) (submit_id : ℤ) (wire : List ℕ) (client end : Client f json c)
      (result : SubmitShareResult)
      → IsConnection c to_come
      → submit_loop f json c rounds submit_id wire client ≡ some (ok (result, end))
      → IsAnswered submit_id wire client end result
  unfolding submit_loop
  submit_loop-IsAnswered zero submit_id wire client end result law h = cc
  submit_loop-IsAnswered (suc rounds) submit_id wire client end result law h =
      elim (Result-cases (read_line f json c client)) [
        | inl (thrown, throws) ↦
            let k = submit_loop-err rounds submit_id wire client thrown throws in cc
        | inr ((line, read), reads) ↦
            let x = read_line-IsRead f json c to_come client read line law reads in
            let round = submit_round_lem f json c submit_id wire line read in
            let goes = submit_round-GoesOn f json c to_come submit_id wire line read in
            elim (SubmitRound-cases f json c to_come
              (submit_round f json c submit_id wire line read)) [
                | inl (next, e) ↦
                    IsAnswered-again submit_id wire line client read next end result x
                      (subst (RoundLem f json c submit_id wire line read) e round)
                      (subst (λ r. GoesOn f json c to_come r (pending f json c to_come read)) e
                        goes)
                      (submit_loop-IsAnswered rounds submit_id wire next end result law (
                        sym (submit_loop-again rounds submit_id wire line client read next reads e)
                        ∙ h))
                | inr (given, next, e) ↦
                    let same =
                      sym (
                        submit_loop-answered rounds submit_id wire line client read next given reads
                          e)
                      ∙ h in
                    subst
                      (λ (p : SubmitShareResult × Client f json c).
                        IsAnswered submit_id wire client p.1 p.0)
                      (ok-injective (some-injective _ _ same))
                      (IsAnswered-answered submit_id wire line client read next given x
                        (subst (RoundLem f json c submit_id wire line read) e round)
                        (subst (λ r. GoesOn f json c to_come r (pending f json c to_come read)) e
                          goes))
              ]
      ]

  -- A request that is sent.
  send_wire_message-session :
      (wire : List ℕ) (client sent : Client f json c)
      → send_wire_message f json c wire client ≡ ok sent
      → (sent.next_id ≡ client.next_id) × (session f json c sent ≡ session f json c client)
  unfolding send_wire_message
  send_wire_message-session wire client sent h =
      let (socket, writes, made) = >>=-eq-ok (c.write client.socket (wire ++ (10 ∷ []))) _ h in
      let e = ok-injective made in (sym (ap StratumClient.next_id e), sym (ap (session f json c) e))

  submit_share-unnamed :
      (rounds : ℕ) (share : ShareSubmission) (client : Client f json c)
      → is_nil client.worker_name ≡ true
      → submit_share f json c rounds share client ≡ some (err runtime_error)
  unfolding submit_share
  submit_share-unnamed rounds share client e = rw (e, submit_share) refl

  abbrev pub request_wire : ShareSubmission → Client f json c → List ℕ
  request_wire share client =
      submit_wire f json (share_request f json c share client) (pos client.next_id)

  submit_share-unsent :
      (rounds : ℕ) (share : ShareSubmission) (client : Client f json c) (thrown : Error)
      → is_nil client.worker_name ≡ false
      → send_wire_message f json c (request_wire share client) (count_id f json c client)
        ≡ err thrown
      → submit_share f json c rounds share client ≡ some (err thrown)
  unfolding submit_share
  submit_share-unsent rounds share client thrown e throws = rw (e, throws, submit_share) refl

  submit_share-sent :
      (rounds : ℕ) (share : ShareSubmission) (client sent : Client f json c)
      → is_nil client.worker_name ≡ false
      → send_wire_message f json c (request_wire share client) (count_id f json c client) ≡ ok sent
      → submit_share f json c rounds share client
        ≡ submit_loop f json c rounds (pos client.next_id) (request_wire share client) sent
  unfolding submit_share
  submit_share-sent rounds share client sent e sends = rw (e, sends, submit_share) refl

  -- The line of a share, with its fields and the client's name.
  abbrev pub share_line : ShareSubmission → Client f json c → List ℕ
  share_line share client =
      submit_wire f json
        (record {
          worker_name = client.worker_name;
          job_id = share.job_id;
          extranonce2_hex = share.extranonce2_hex;
          ntime_hex = share.ntime_hex;
          nonce_hex = share.nonce_hex;
        })
        (pos client.next_id)
      ++ (10 ∷ [])

  send_wire_message-writes :
      (share : ShareSubmission) (client sent : Client f json c)
      → send_wire_message f json c (request_wire share client) (count_id f json c client) ≡ ok sent
      → c.write client.socket (share_line share client) ≡ ok sent.socket
  unfolding send_wire_message share_request
  send_wire_message-writes share client sent h =
      let (socket, writes, made) =
        >>=-eq-ok (c.write client.socket (share_line share client)) _ h in
      writes
      ∙ ap (λ (k : Client f json c). let r : Result c.Socket = ok k.socket in r) (ok-injective made)

  -- When submit_share returns, it has written the line of the share, with the client's name, under the
  -- client's next id, which it counts up, and its result is that of the first line of the pool that answers this id. Every line before the
  -- answer was applied in order to the subscription, the job and the difficulty, and no text behind
  -- the answer was taken.
  pub submit_share-IsAnswered :
      (rounds : ℕ) (share : ShareSubmission) (client end : Client f json c)
      (result : SubmitShareResult)
      → IsConnection c to_come
      → submit_share f json c rounds share client ≡ some (ok (result, end))
      → (sent : Client f json c) × (send_wire_message f json c
            (request_wire share client)
            (count_id f json c client)
          ≡ ok sent)
        × (c.write client.socket (share_line share client) ≡ ok sent.socket)
        × (sent.next_id ≡ client.next_id + 1)
        × (session f json c sent ≡ session f json c client)
        × IsAnswered (pos client.next_id) (request_wire share client) sent end result
  submit_share-IsAnswered rounds share client end result law h =
      elim (Bool-cases (is_nil client.worker_name)) [
        | inl e ↦ let k = submit_share-unnamed rounds share client e in cc
        | inr e ↦
            elim (Result-cases
              (send_wire_message f json c (request_wire share client) (count_id f json c client))) [
                | inl (thrown, throws) ↦
                    let k = submit_share-unsent rounds share client thrown e throws in cc
                | inr (sent, sends) ↦
                    let (id, kept) =
                      send_wire_message-session (request_wire share client)
                        (count_id f json c client) sent sends in
                    (
                      sent,
                      sends,
                      send_wire_message-writes share client sent sends,
                      id,
                      kept,
                      submit_loop-IsAnswered rounds (pos client.next_id) (request_wire share client)
                          sent end result law
                          (sym (submit_share-sent rounds share client sent e sends) ∙ h),
                    )
              ]
      ]

  Spells-le :
      (lines : List (List ℕ)) (text rest : List ℕ)
      → Spells lines text rest
      → length rest ≤ length text
  Spells-le [] text rest same = let e = ap length same in omega arith
  Spells-le (line ∷ lines) text rest (raw, behind, _, _, splits, others) =
      let e = ap length splits in
      let n = length-append raw (10 ∷ behind) in
      let le = Spells-le lines behind rest others in omega arith

  -- A submission does not leave more to read.
  pub submit_share-pending :
      (rounds : ℕ) (share : ShareSubmission) (client end : Client f json c)
      (result : SubmitShareResult)
      → IsConnection c to_come
      → submit_share f json c rounds share client ≡ some (ok (result, end))
      → length (pending f json c to_come end) ≤ length (pending f json c to_come client)
  submit_share-pending rounds share client end result law h =
      let (sent, sends, _, _, _, x) =
        submit_share-IsAnswered rounds share client end result law h in
      let same = ap length (
        send_wire_message-pending f json c to_come (request_wire share client)
          (count_id f json c client) sent law sends) in
      let le = Spells-le (x.before ++ (x.answer ∷ [])) _ _ x.spells in omega arith
