-- ===== src/App/Control.antt =====
-- src/main.cpp: the control thread. Each function gives the shared variables and then what it returns
-- or throws; `none` says that it still waits for the pool (see Client).
use btccpu.Prelude.{
  ℕ, zero, suc, Bool, true, false, not, ◌||◌, List, Option, none, some, ◌==◌, if◌then◌else◌, length,
  Result, Error, ok, err, runtime_error, ◌>>=◌,
}
use btccpu.Hex.{u32_from_hex_be}
use btccpu.WorkState.{empty, make_work_state}
use btccpu.Target.{FloatingPoint, expand_compact_target, share_target_from_difficulty}
use btccpu.Scan.{increment}
use btccpu.Json.{Json}
use btccpu.Connection.{Connection}
use btccpu.Client.{
  SubmitShareResult, Client, make_client, connect, subscribe, suggest_difficulty, authorize,
  run_until_ready, poll, ready, submit_share,
}
use btccpu.App.{
  QueuedShare, Counters, AppEvent, startup, work_update, share_submit, stale_share_discarded, push,
  try_pop, wait_pop_for, Shared, push_event,
}

-- The counter of the pool's answer.
unfoldable pub count_answer : Bool → Counters → Counters
count_answer true counters = record counters {
  shares_accepted = increment counters.shares_accepted;
}
count_answer false counters = record counters {
  shares_rejected = increment counters.shares_rejected;
}

unfoldable pub stale_event : {Double : Type 0} → QueuedShare → ℕ → AppEvent Double
stale_event queued current_generation = stale_share_discarded (record {
  job_id = queued.candidate.work.job.job_id;
  nonce = queued.candidate.nonce;
  candidate_generation = queued.candidate.generation;
  current_generation = current_generation;
})

unfoldable pub submit_event : {Double : Type 0} → QueuedShare → SubmitShareResult → AppEvent Double
submit_event queued submit_result = share_submit (record {
  job_id = queued.candidate.work.job.job_id;
  extranonce2_hex = queued.candidate.work.coinbase.extranonce2_hex;
  ntime_hex = queued.candidate.work.job.ntime;
  nonce_hex = queued.submission.nonce_hex;
  generation = queued.candidate.generation;
  nonce = queued.candidate.nonce;
  accepted = submit_result.accepted;
  error_text = submit_result.error_text;
  raw_request = submit_result.raw_request;
  raw_response = submit_result.raw_response;
})

-- The queue of the shares at the end of `control_idle_wait`, whether a stop is requested when the wait
-- is over and whether one is afterwards. A share that was popped goes back behind the others.
unfoldable pub control_idle_wait : Bool → Bool → List QueuedShare → List QueuedShare
control_idle_wait stop_at_pop stop_after share_queue = elim (wait_pop_for stop_at_pop share_queue) [
  | none ↦ share_queue
  | some (queued, rest) ↦
      if stop_after then rest else if empty queued.candidate.work then rest else push rest queued
]

module _ (f : FloatingPoint) (json : Json f.Double) (c : Connection) where
  -- What a thread's function comes to.
  abbrev pub Outcome : Type 0 → Type 0
  Outcome A = Shared f.Double × Option (Result A)

  abbrev pub and_then : {A B : Type 0} → Outcome A → (A → Shared f.Double → Outcome B) → Outcome B
  and_then (shared, none) rest = (shared, none)
  and_then (shared, some (err e)) rest = (shared, some (err e))
  and_then (shared, some (ok a)) rest = rest a shared

  -- A pass through the loop of `drain_share_queue`: the queue is empty, or a share was dealt with, or
  -- the submission throws or still waits.
  pub data DrainRound : Type 0 where
    emptied : DrainRound
    dealt : Client f json c → Shared f.Double → DrainRound
    threw : Error → Shared f.Double → DrainRound
    waits : Shared f.Double → DrainRound

  -- A share that was popped.
  unfoldable pub drain_share : ℕ → QueuedShare → Client f json c → Shared f.Double → DrainRound
  drain_share rounds queued client shared =
      if not (queued.candidate.generation == shared.work_generation)
      then dealt client (push_event (stale_event queued shared.work_generation) shared)
      else elim (submit_share f json c rounds queued.submission client) [
        | none ↦ waits shared
        | some (err e) ↦ threw e shared
        | some (ok (submit_result, next)) ↦ dealt next (
            push_event (submit_event queued submit_result)
              (record shared { counters = count_answer submit_result.accepted shared.counters }))
      ]

  unfoldable pub drain_round : ℕ → Client f json c → Shared f.Double → DrainRound
  drain_round rounds client shared = elim (try_pop shared.share_queue) [
    | none ↦ emptied
    | some (queued, rest) ↦ drain_share rounds queued client (record shared { share_queue = rest })
  ]

  -- The loop, with so many shares to pop at most.
  unfoldable pub drain_loop :
      ℕ → ℕ → Bool → Client f json c → Shared f.Double → Outcome (Bool × Client f json c)
  drain_loop rounds zero did_work client shared = (shared, none)
  drain_loop rounds (suc shares) did_work client shared = elim (drain_round rounds client shared) [
    | emptied ↦ (shared, some (ok (did_work, client)))
    | dealt next after ↦ drain_loop rounds shares true next after
    | threw e after ↦ (after, some (err e))
    | waits after ↦ (after, none)
  ]

  -- The queue, to which nothing is pushed meanwhile, is empty behind its last share.
  unfoldable pub drain_share_queue :
      ℕ → Client f json c → Shared f.Double → Outcome (Bool × Client f json c)
  drain_share_queue rounds client shared =
      drain_loop rounds (suc (length shared.share_queue)) false client shared

  -- All that can throw comes before the first change.
  unfoldable pub publish_latest_work :
      List ℕ → Client f json c → Shared f.Double → Result (Shared f.Double)
  publish_latest_work beyond client shared = elim client.subscription [
    | none ↦ ok shared
    | some sub ↦ elim client.current_job [
      | none ↦ ok shared
      | some job ↦ do
        work ← make_work_state beyond job sub 0
        nbits ← u32_from_hex_be job.nbits
        share_target ← share_target_from_difficulty f client.difficulty
        let generation = increment shared.work_generation
        ok (
            push_event
              (work_update (record {
                job_id = job.job_id;
                ntime_hex = job.ntime;
                clean_jobs = job.clean_jobs;
                difficulty = client.difficulty;
                generation = generation;
                raw_notify = client.last_raw_notify;
                parsed_summary = client.last_parsed_summary;
              }))
              (record shared {
                work_generation = generation;
                published = some (record {
                  work = work;
                  network_target = expand_compact_target nbits;
                  share_target = share_target;
                  generation = generation;
                  share_difficulty = client.difficulty;
                });
              }))
    ]
  ]

  unfoldable pub maybe_publish_startup_event : Client f json c → Shared f.Double → Shared f.Double
  maybe_publish_startup_event client shared =
      if shared.startup_announced
      then shared
      else (let announced : Shared f.Double = record shared { startup_announced = true } in
          elim shared.published [
            | none ↦ announced
            | some published ↦
                push_event
                  (startup (record {
                    work = published.work;
                    difficulty = client.difficulty;
                    share_difficulty = f.truncate_u64 published.share_difficulty;
                    extranonce1 = published.work.subscription.extranonce1;
                    extranonce2_size = published.work.subscription.extranonce2_size;
                  }))
                  announced
          ])

  abbrev returns : {A : Type 0} → Shared f.Double → Result A → Outcome A
  returns shared r = (shared, some r)

  -- The control thread before its loop.
  unfoldable pub control_start :
      List ℕ → ℕ → List ℕ → List ℕ → List ℕ → List ℕ → Shared f.Double → Outcome (Client f json c)
  control_start beyond rounds host port user password shared =
      and_then
        (returns shared (do
          connected ← connect f json c (make_client f json c host port)
          subscribed ← subscribe f json c connected
          suggested ← suggest_difficulty f json c (f.from_u64 1) subscribed
          authorize f json c user password suggested))
        (λ authorized shared.
          and_then (shared, run_until_ready f json c rounds authorized)
            (λ client shared.
              if not (ready f json c client)
              then returns shared (err runtime_error)
              else and_then
                  (returns shared (do
                    published ← publish_latest_work beyond client shared
                    ok (maybe_publish_startup_event client published)))
                  (λ published shared. returns published (ok client))))

  -- A pass through the loop of the control thread; the stop tokens are those of `control_idle_wait`.
  unfoldable pub control_round :
      List ℕ → ℕ → Bool → Bool → Client f json c → Shared f.Double → Outcome (Client f json c)
  control_round beyond rounds stop_at_pop stop_after client shared =
      and_then (drain_share_queue rounds client shared) (λ drained shared.
        and_then (returns shared (poll f json c drained.1)) (λ polled shared.
          and_then
            (returns shared (
              if polled.0.work_invalidated
              then publish_latest_work beyond polled.1 shared
              else ok shared))
            (λ published shared.
              if drained.0 || polled.0.got_message
              then returns published (ok polled.1)
              else returns
                  (record published {
                    share_queue = control_idle_wait stop_at_pop stop_after published.share_queue;
                  })
                  (ok polled.1))))
