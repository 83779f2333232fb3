-- ===== src/Client/Session.antt =====
-- src/stratum_client/stratum_client.cpp: what the pool's messages do to the subscription, the job and
-- the difficulty.
use btccpu.Prelude.{
  ℕ, ◌≡◌, refl, false, List, [], ◌∷◌, ◌++◌, Option, Option-cases, none, some, Bool-cases, inl, inr,
  ◌∙◌, ap, sym, if◌then◌else◌, is_nil, contains,
}
use btccpu.Job.{SubscriptionContext, MiningJob}
use btccpu.Target.{FloatingPoint}
use btccpu.Json.{Json}
use btccpu.Connection.{Connection}
use btccpu.Messages.{
  IncomingMessage, unknown, set_difficulty, notify, subscribe_response, authorize_response,
  submit_response, SetDifficultyMessage,
}
use btccpu.Messages.Parse.{parse_incoming_message}
use btccpu.Client.{
  Client, PollResult, apply_parsed_message, note_message, handle_message, strip_return,
}

-- What a pool has told a client.
pub record Session (Double : Type 0) : Type 0 where
  pub subscription : Option SubscriptionContext
  pub current_job : Option MiningJob
  pub difficulty : Double

-- The lines are the first lines of the text, and the rest is behind them.
abbrev pub Spells : List (List ℕ) → List ℕ → List ℕ → Type 0
Spells [] text rest = text ≡ rest
Spells (line ∷ lines) text rest =
    (raw : List ℕ) × (behind : List ℕ) × (contains 10 raw ≡ false)
    × (line ≡ strip_return raw)
    × (text ≡ raw ++ (10 ∷ behind))
    × Spells lines behind rest

module _ (f : FloatingPoint) (json : Json f.Double) (c : Connection) where
  abbrev pub session : Client f json c → Session f.Double
  session client = record {
    subscription = client.subscription;
    current_job = client.current_job;
    difficulty = client.difficulty;
  }

  -- What a message tells.
  abbrev pub deliver : IncomingMessage f.Double → Session f.Double → Session f.Double
  deliver (unknown m) s = s
  deliver (set_difficulty m) s = record s {
    difficulty = if f.differ s.difficulty m.difficulty then m.difficulty else s.difficulty;
  }
  deliver (notify m) s = record s {
    current_job = some (record {
      job_id = m.job_id;
      prevhash = m.prevhash;
      coinb1 = m.coinb1;
      coinb2 = m.coinb2;
      merkle_branch = m.merkle_branch;
      version = m.version;
      nbits = m.nbits;
      ntime = m.ntime;
      clean_jobs = m.clean_jobs;
    });
  }
  deliver (subscribe_response m) s = record s {
    subscription =
        some (record { extranonce1 = m.extranonce1; extranonce2_size = m.extranonce2_size });
  }
  deliver (authorize_response m) s = s
  deliver (submit_response m) s = s

  -- What a line tells, if it is a message.
  abbrev pub deliver_line : List ℕ → Session f.Double → Session f.Double
  deliver_line line s =
      if is_nil line
      then s
      else elim (parse_incoming_message f json line) [ none ↦ s | some m ↦ deliver m s ]

  -- What lines tell, one after the other.
  abbrev pub replay : List (List ℕ) → Session f.Double → Session f.Double
  replay [] s = s
  replay (line ∷ lines) s = replay lines (deliver_line line s)

  pub session-apply_parsed_message :
      (m : IncomingMessage f.Double) (client : Client f json c)
      → session (apply_parsed_message f json c m client).1 ≡ deliver m (session client)
  unfolding apply_parsed_message
  session-apply_parsed_message (unknown m) client = refl
  session-apply_parsed_message (set_difficulty m) client =
      elim (Bool-cases (f.differ client.difficulty m.difficulty)) [
        | inl e ↦ rw (e, apply_parsed_message) refl
        | inr e ↦ rw (e, apply_parsed_message) refl
      ]
  session-apply_parsed_message (notify m) client = refl
  session-apply_parsed_message (subscribe_response m) client = refl
  session-apply_parsed_message (authorize_response m) client = refl
  session-apply_parsed_message (submit_response m) client = refl

  pub session-note_message :
      (line : List ℕ) (m : IncomingMessage f.Double) (client : Client f json c)
      → session (note_message f json c line m client) ≡ session client
  unfolding note_message
  session-note_message line (unknown m) client = refl
  session-note_message line (set_difficulty m) client = refl
  session-note_message line (notify m) client = refl
  session-note_message line (subscribe_response m) client = refl
  session-note_message line (authorize_response m) client = refl
  session-note_message line (submit_response m) client = refl

  -- A noted message that is applied.
  pub session-apply-note :
      (line : List ℕ) (m : IncomingMessage f.Double) (client : Client f json c)
      → session (apply_parsed_message f json c m (note_message f json c line m client)).1
        ≡ deliver m (session client)
  session-apply-note line m client =
      session-apply_parsed_message m (note_message f json c line m client)
      ∙ ap (deliver m) (session-note_message line m client)

  pub session-handle_message :
      (line : List ℕ) (client : Client f json c)
      → is_nil line ≡ false
      → session (handle_message f json c line client).1 ≡ deliver_line line (session client)
  unfolding handle_message
  session-handle_message line client h = elim (Option-cases (parse_incoming_message f json line)) [
    | inl e ↦ rw (h, e, handle_message) refl
    | inr (m, e) ↦ rw (h, e, handle_message) (session-apply-note line m client)
  ]

  -- A line in the loop of run_until_ready.
  pub session-receive :
      (line : List ℕ) (client : Client f json c)
      → session (if is_nil line then client else (handle_message f json c line client).1)
        ≡ deliver_line line (session client)
  session-receive [] client = refl
  session-receive (a ∷ line) client = session-handle_message (a ∷ line) client refl

  invalidates-set_difficulty :
      (m : SetDifficultyMessage f.Double) (client : Client f json c)
      → (apply_parsed_message f json c (set_difficulty m) client).0.work_invalidated
        ≡ f.differ client.difficulty m.difficulty
  unfolding apply_parsed_message
  invalidates-set_difficulty m client =
      elim (Bool-cases (f.differ client.difficulty m.difficulty)) [
        | inl e ↦ rw (e, apply_parsed_message) refl
        | inr e ↦ rw (e, apply_parsed_message) refl
      ]

  apply_parsed_message-invalidates :
      (m : IncomingMessage f.Double) (client : Client f json c)
      → (apply_parsed_message f json c m client).0.work_invalidated ≡ false
      → ((session (apply_parsed_message f json c m client).1).current_job ≡ client.current_job)
        × ((session (apply_parsed_message f json c m client).1).difficulty ≡ client.difficulty)
  unfolding apply_parsed_message
  apply_parsed_message-invalidates (unknown m) client h = (refl, refl)
  apply_parsed_message-invalidates (set_difficulty m) client h =
      let e : f.differ client.difficulty m.difficulty ≡ false =
        sym (invalidates-set_difficulty m client) ∙ h in
      rw (e, apply_parsed_message) (refl, refl)
  apply_parsed_message-invalidates (notify m) client h = cc
  apply_parsed_message-invalidates (subscribe_response m) client h = (refl, refl)
  apply_parsed_message-invalidates (authorize_response m) client h = (refl, refl)
  apply_parsed_message-invalidates (submit_response m) client h = (refl, refl)

  -- A line that handle_message does not report as one that invalidates the work leaves the job and the
  -- difficulty as they are.
  pub handle_message-invalidates :
      (line : List ℕ) (client : Client f json c)
      → (handle_message f json c line client).0.work_invalidated ≡ false
      → ((handle_message f json c line client).1.current_job ≡ client.current_job)
        × ((handle_message f json c line client).1.difficulty ≡ client.difficulty)
  unfolding handle_message
  handle_message-invalidates line client h =
      elim (Option-cases (parse_incoming_message f json line)) [
        | inl e ↦ rw (e, handle_message) (refl, refl)
        | inr (m, e) ↦
            let is_applied : handle_message f json c line client
                ≡ apply_parsed_message f json c m (note_message f json c line m client) =
              rw (e, handle_message) refl in
            let noted = session-note_message line m client in
            let (same_job, same_difficulty) =
              apply_parsed_message-invalidates m (note_message f json c line m client) (
                sym (ap (λ (p : PollResult × Client f json c). p.0.work_invalidated) is_applied)
                ∙ h) in
            (
              ap (λ (p : PollResult × Client f json c). p.1.current_job) is_applied
                  ∙ same_job
                  ∙ ap Session.current_job noted,
              ap (λ (p : PollResult × Client f json c). p.1.difficulty) is_applied
                  ∙ same_difficulty
                  ∙ ap Session.difficulty noted,
            )
      ]

  pub deliver_line-some :
      (line : List ℕ) (m : IncomingMessage f.Double) (s : Session f.Double)
      → is_nil line ≡ false
      → parse_incoming_message f json line ≡ some m
      → deliver_line line s ≡ deliver m s
  deliver_line-some line m s nonempty e = rw (nonempty, e, deliver_line) refl
