-- ===== src/Client/Rounds.antt =====
-- src/stratum_client/stratum_client.cpp: a line in the loop of `submit_share`.
use btccpu.Prelude.{
  ℕ, ℤ, ◌≡◌, refl, sym, ◌∙◌, true, false, List, [], ◌∷◌, some, Bool-cases, Option-cases, inl, inr,
  equal_int, is_nil,
}
use mathlib.Core.Option.{some-injective}
use btccpu.Target.{FloatingPoint}
use btccpu.Json.{Json}
use btccpu.Connection.{Connection}
use btccpu.Messages.{
  IncomingMessage, unknown, set_difficulty, notify, subscribe_response, authorize_response,
  submit_response, SubmitResponse,
}
use btccpu.Messages.Parse.{parse_incoming_message}
use btccpu.Client.{
  Client, apply_parsed_message, note_message, again, answered, SubmitRound, submit_message,
  submit_round,
}
use btccpu.Client.Session.{
  session, deliver_line, session-apply-note, session-note_message, deliver_line-some,
}

module _ (f : FloatingPoint) (json : Json f.Double) (c : Connection) where
  -- A line that answers the request with the id.
  abbrev pub IsAnswer : ℤ → List ℕ → SubmitResponse → Type 0
  IsAnswer submit_id line r =
      (parse_incoming_message f json line ≡ some (submit_response r))
      × (equal_int r.id submit_id ≡ true)

  -- A line that does not.
  abbrev pub IsOther : ℤ → List ℕ → Type 0
  IsOther submit_id line =
      (r : SubmitResponse)
      → is_nil line ≡ false
      → parse_incoming_message f json line ≡ some (submit_response r)
      → equal_int r.id submit_id ≡ false

  -- What one line does in the loop of submit_share.
  abbrev pub RoundLem : ℤ → List ℕ → List ℕ → Client f json c → SubmitRound f json c → Type 0
  RoundLem submit_id wire line client (again next) =
      (session f json c next ≡ deliver_line f json c line (session f json c client))
      × IsOther submit_id line
  RoundLem submit_id wire line client (answered result next) =
      (r : SubmitResponse) × IsAnswer submit_id line r
      × (result ≡ record {
        accepted = r.accepted;
        error_text = r.error_text;
        raw_request = wire;
        raw_response = line;
      })
      × (session f json c next ≡ session f json c client)

  -- A message that is no answer to a submission.
  pub note_message-IsOther :
      (submit_id : ℤ) (line : List ℕ) (m : IncomingMessage f.Double) (client : Client f json c)
      → is_nil line ≡ false
      → parse_incoming_message f json line ≡ some m
      → ((r : SubmitResponse) → m ≡ submit_response r → equal_int r.id submit_id ≡ false)
      → (session f json c (apply_parsed_message f json c m (note_message f json c line m client)).1
          ≡ deliver_line f json c line (session f json c client))
        × IsOther submit_id line
  note_message-IsOther submit_id line m client nonempty e other = (
    session-apply-note f json c line m client
        ∙ sym (deliver_line-some f json c line m (session f json c client) nonempty e),
    λ r _ is_submit. other r (some-injective m (submit_response r) (sym e ∙ is_submit)),
  )

  pub submit_message_lem :
      (submit_id : ℤ) (wire line : List ℕ) (m : IncomingMessage f.Double) (client : Client f json c)
      → is_nil line ≡ false
      → parse_incoming_message f json line ≡ some m
      → RoundLem submit_id wire line client
          (submit_message f json c submit_id wire line m (note_message f json c line m client))
  unfolding submit_message
  submit_message_lem submit_id wire line (unknown m) client nonempty e =
      note_message-IsOther submit_id line (unknown m) client nonempty e (λ r h. cc)
  submit_message_lem submit_id wire line (set_difficulty m) client nonempty e =
      note_message-IsOther submit_id line (set_difficulty m) client nonempty e (λ r h. cc)
  submit_message_lem submit_id wire line (notify m) client nonempty e =
      note_message-IsOther submit_id line (notify m) client nonempty e (λ r h. cc)
  submit_message_lem submit_id wire line (subscribe_response m) client nonempty e =
      note_message-IsOther submit_id line (subscribe_response m) client nonempty e (λ r h. cc)
  submit_message_lem submit_id wire line (authorize_response m) client nonempty e =
      note_message-IsOther submit_id line (authorize_response m) client nonempty e (λ r h. cc)
  submit_message_lem submit_id wire line (submit_response m) client nonempty e =
      elim (Bool-cases (equal_int m.id submit_id)) [
        | inl same ↦
            rw (same, submit_message)
              (m, (e, same), refl, session-note_message f json c line (submit_response m) client)
        | inr differs ↦
            rw (differs, submit_message)
              (note_message-IsOther submit_id line (submit_response m) client nonempty e (λ r h.
                let k : equal_int m.id submit_id ≡ equal_int r.id submit_id = cc in
                sym k ∙ differs))
      ]

  pub submit_round_lem :
      (submit_id : ℤ) (wire line : List ℕ) (client : Client f json c)
      → RoundLem submit_id wire line client (submit_round f json c submit_id wire line client)
  unfolding submit_round
  submit_round_lem submit_id wire [] client = (refl, λ r h e. cc)
  submit_round_lem submit_id wire (a ∷ line) client =
      elim (Option-cases (parse_incoming_message f json (a ∷ line))) [
        | inl e ↦ rw (e, submit_round) (rw (e, deliver_line) refl, λ r h is_submit. cc)
        | inr (m, e) ↦
            rw (e, submit_round) (submit_message_lem submit_id wire (a ∷ line) m client refl e)
      ]
