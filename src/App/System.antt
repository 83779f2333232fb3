-- ===== src/App/System.antt =====
-- src/main.cpp: the threads as a system of steps over the variables that they share. Each access to a
-- shared variable is a step, a queue's operation under its mutex one access, so that the steps of the
-- control thread, the worker and the main thread mix in every order. A phase says where a thread
-- stands between two accesses, and what it holds.
use btccpu.Prelude.{
  ℕ, suc, ◌+◌, ◌^◌, ◌<◌, ◌≡◌, ◌≢◌, ◌⊎◌, true, false, List, [], ◌∷◌, ◌++◌, Option, none, some, Error,
  ok, err,
}
use btccpu.Job.{ShareSubmission}
use btccpu.WorkState.{empty}
use btccpu.Scan.{ShareCandidate, increment}
use btccpu.Target.{FloatingPoint}
use btccpu.Json.{Json}
use btccpu.Connection.{Connection}
use btccpu.Client.{SubmitShareResult, Client, PollResult, poll, submit_share}
use btccpu.App.{
  PublishedWork, QueuedShare, AppEvent, chunk_started, ChunkStartedEvent, ScanFinishedEvent,
  scan_finished, thread_exited, push, try_pop, Shared, WorkUpdateEvent, work_update, initial,
  push_event, record_thread_exception,
}
use btccpu.App.Control.{
  count_answer, stale_event, submit_event, publish_latest_work, maybe_publish_startup_event,
}
use btccpu.App.Worker.{control_name, worker_name, count_scan, handle_found_share}
use btccpu.App.MainThread.{
  MainState, request_stop, take_event, has_error, sigint_reason, error_reason,
}

-- The control thread: at its loop; in `publish_latest_work`, with the generation counted up and the work
-- not stored, and with the event to push; in `drain_share_queue`, with a share, with one to discard,
-- with an answer to count, and with one to tell; in `control_idle_wait`, with a share; and behind an
-- exception, to record it and to tell it; on its way out, and out.
pub data ControlPhase (Double : Type 0) : Type 0 where
  looping : ControlPhase Double
  publishing : PublishedWork Double → WorkUpdateEvent Double → ControlPhase Double
  stored : WorkUpdateEvent Double → ControlPhase Double
  popped : QueuedShare → ControlPhase Double
  discarding : QueuedShare → ℕ → ControlPhase Double
  answered : QueuedShare → SubmitShareResult → ControlPhase Double
  counted : QueuedShare → SubmitShareResult → ControlPhase Double
  waited : QueuedShare → ControlPhase Double
  throwing : Error → ControlPhase Double
  recorded : Error → ControlPhase Double
  leaving : ControlPhase Double
  left : ControlPhase Double

-- The worker: at its loop or in a scan; in `handle_found_share`, with a share to queue, and with one to
-- tell; and behind an exception, to record it and to tell it; on its way out, and out.
pub data WorkerPhase (Double : Type 0) : Type 0 where
  scanning : WorkerPhase Double
  found : PublishedWork Double → ShareSubmission → ShareCandidate → WorkerPhase Double
  queued : PublishedWork Double → ShareSubmission → ShareCandidate → WorkerPhase Double
  throwing : Error → WorkerPhase Double
  recorded : Error → WorkerPhase Double
  leaving : WorkerPhase Double
  left : WorkerPhase Double

-- The shared variables, the control thread's client, the work that the worker adopted last, the phases,
-- the main thread's variables, the events that it has taken, and the number of shares that were popped
-- and neither submitted nor discarded nor put back.
pub record System (Double Client : Type 0) : Type 0 where
  pub shared : Shared Double
  pub client : Client
  pub adopted : Option (PublishedWork Double)
  pub control : ControlPhase Double
  pub worker : WorkerPhase Double
  pub main : MainState
  pub printed : List (AppEvent Double)
  pub lost : ℕ

module _ (f : FloatingPoint) (json : Json f.Double) (c : Connection) (beyond : List ℕ) where
  abbrev pub AppSystem : Type 0
  AppSystem = System f.Double (Client f json c)

  -- With a client that is ready.
  abbrev pub start : Client f json c → AppSystem
  start client = record {
    shared = initial;
    client = client;
    adopted = none;
    control = looping;
    worker = scanning;
    main = record {
      stop_requested = false;
      control_exited = false;
      worker_exited = false;
      control_token = false;
      worker_token = false;
    };
    printed = [];
    lost = 0;
  }

  -- The steps of the control thread. What is published is what `publish_latest_work` comes to; its
  -- generation is counted up before it wraps around.
  pub data ControlStep : AppSystem → AppSystem → Type 0 where
    polls :
        {s : AppSystem} {next : Client f json c} {result : PollResult}
        → s.control ≡ looping
        → poll f json c s.client ≡ ok (result, next)
        → ControlStep s (record s { client = next })
    fails_to_poll :
        {s : AppSystem} (thrown : Error)
        → s.control ≡ looping
        → poll f json c s.client ≡ err thrown
        → ControlStep s (record s { control = throwing thrown })
    counts_up :
        {s : AppSystem} (next : PublishedWork f.Double) (event : WorkUpdateEvent f.Double)
        → s.control ≡ looping
        → s.shared.work_generation + 1 < 2 ^ 64
        → next.generation ≡ increment s.shared.work_generation
        → publish_latest_work f json c beyond s.client s.shared
          ≡ ok (
              push_event
                (work_update event)
                (record s.shared { work_generation = next.generation; published = some next }))
        → ControlStep s (record s {
          control = publishing next event;
          shared = record s.shared { work_generation = increment s.shared.work_generation };
        })
    stores :
        {s : AppSystem} (next : PublishedWork f.Double) (event : WorkUpdateEvent f.Double)
        → s.control ≡ publishing next event
        → ControlStep s (record s {
          control = stored event;
          shared = record s.shared { published = some next };
        })
    tells_work :
        {s : AppSystem} (event : WorkUpdateEvent f.Double)
        → s.control ≡ stored event
        → ControlStep s
            (record s { control = looping; shared = push_event (work_update event) s.shared })
    fails_to_publish :
        {s : AppSystem} (thrown : Error)
        → s.control ≡ looping
        → publish_latest_work f json c beyond s.client s.shared ≡ err thrown
        → ControlStep s (record s { control = throwing thrown })
    announces :
        {s : AppSystem}
        → s.control ≡ looping
        → ControlStep s
            (record s { shared = maybe_publish_startup_event f json c s.client s.shared })
    pops :
        {s : AppSystem} (q : QueuedShare) (rest : List QueuedShare)
        → s.control ≡ looping
        → try_pop s.shared.share_queue ≡ some (q, rest)
        → ControlStep s
            (record s { control = popped q; shared = record s.shared { share_queue = rest } })
    finds_stale :
        {s : AppSystem} (q : QueuedShare)
        → s.control ≡ popped q
        → q.candidate.generation ≢ s.shared.work_generation
        → ControlStep s (record s { control = discarding q s.shared.work_generation })
    discards :
        {s : AppSystem} (q : QueuedShare) (current_generation : ℕ)
        → s.control ≡ discarding q current_generation
        → ControlStep s (record s {
          control = looping;
          shared = push_event (stale_event q current_generation) s.shared;
        })
    submits :
        {s : AppSystem} (rounds : ℕ) (q : QueuedShare) (answer : SubmitShareResult)
        (next : Client f json c)
        → s.control ≡ popped q
        → q.candidate.generation ≡ s.shared.work_generation
        → submit_share f json c rounds q.submission s.client ≡ some (ok (answer, next))
        → ControlStep s (record s { control = answered q answer; client = next })
    fails_to_submit :
        {s : AppSystem} (rounds : ℕ) (q : QueuedShare) (thrown : Error)
        → s.control ≡ popped q
        → q.candidate.generation ≡ s.shared.work_generation
        → submit_share f json c rounds q.submission s.client ≡ some (err thrown)
        → ControlStep s (record s { control = throwing thrown; lost = suc s.lost })
    counts_answer :
        {s : AppSystem} (q : QueuedShare) (answer : SubmitShareResult)
        → s.control ≡ answered q answer
        → ControlStep s (record s {
          control = counted q answer;
          shared = record s.shared { counters = count_answer answer.accepted s.shared.counters };
        })
    tells_answer :
        {s : AppSystem} (q : QueuedShare) (answer : SubmitShareResult)
        → s.control ≡ counted q answer
        → ControlStep s
            (record s { control = looping; shared = push_event (submit_event q answer) s.shared })
    waits :
        {s : AppSystem} (q : QueuedShare) (rest : List QueuedShare)
        → s.control ≡ looping
        → try_pop s.shared.share_queue ≡ some (q, rest)
        → ControlStep s
            (record s { control = waited q; shared = record s.shared { share_queue = rest } })
    puts_back :
        {s : AppSystem} (q : QueuedShare)
        → s.control ≡ waited q
        → empty q.candidate.work ≡ false
        → ControlStep s (record s {
          control = looping;
          shared = record s.shared { share_queue = push s.shared.share_queue q };
        })
    drops :
        {s : AppSystem} (q : QueuedShare)
        → s.control ≡ waited q
        → (s.main.control_token ≡ true) ⊎ (empty q.candidate.work ≡ true)
        → ControlStep s (record s { control = looping; lost = suc s.lost })
    stops :
        {s : AppSystem}
        → s.control ≡ looping
        → s.main.control_token ≡ true
        → ControlStep s (record s { control = leaving })
    records :
        {s : AppSystem} (thrown : Error)
        → s.control ≡ throwing thrown
        → ControlStep s (record s {
          control = recorded thrown;
          shared = record s.shared {
            first_error = (record_thread_exception thrown control_name s.shared).first_error;
          };
        })
    tells_error :
        {s : AppSystem} (thrown : Error)
        → s.control ≡ recorded thrown
        → ControlStep s (record s {
          control = leaving;
          shared = record s.shared {
            events = (record_thread_exception thrown control_name s.shared).events;
          };
        })
    exits :
        {s : AppSystem}
        → s.control ≡ leaving
        → ControlStep s (record s {
          control = left;
          shared = push_event (thread_exited (record { thread_name = control_name })) s.shared;
        })

  -- The steps of the worker. A share is found in a scan of the adopted work; what can throw is the
  -- preparation of a work and the scan.
  pub data WorkerStep : AppSystem → AppSystem → Type 0 where
    adopts :
        {s : AppSystem} (p : PublishedWork f.Double)
        → s.worker ≡ scanning
        → s.shared.published ≡ some p
        → WorkerStep s (record s { adopted = some p })
    begins :
        {s : AppSystem} (event : ChunkStartedEvent)
        → s.worker ≡ scanning
        → WorkerStep s (record s { shared = push_event (chunk_started event) s.shared })
    progresses :
        {s : AppSystem} (hashes_done : ℕ)
        → s.worker ≡ scanning
        → WorkerStep s (record s {
          shared = record s.shared {
            counters = record s.shared.counters { current_scan_hashes_done = hashes_done };
          };
        })
    finds :
        {s : AppSystem} (p : PublishedWork f.Double) (submission : ShareSubmission)
        (candidate : ShareCandidate)
        → s.worker ≡ scanning
        → s.adopted ≡ some p
        → candidate.generation ≡ p.generation
        → WorkerStep s (record s {
          worker = found p submission candidate;
          shared = record s.shared {
            counters = (handle_found_share p submission candidate s.shared).counters;
          };
        })
    queues :
        {s : AppSystem} (p : PublishedWork f.Double) (submission : ShareSubmission)
        (candidate : ShareCandidate)
        → s.worker ≡ found p submission candidate
        → WorkerStep s (record s {
          worker = queued p submission candidate;
          shared = record s.shared {
            share_queue = (handle_found_share p submission candidate s.shared).share_queue;
          };
        })
    tells_share :
        {s : AppSystem} (p : PublishedWork f.Double) (submission : ShareSubmission)
        (candidate : ShareCandidate)
        → s.worker ≡ queued p submission candidate
        → WorkerStep s (record s {
          worker = scanning;
          shared = record s.shared {
            events = (handle_found_share p submission candidate s.shared).events;
          };
        })
    counts_scan :
        {s : AppSystem} (hashes_done : ℕ)
        → s.worker ≡ scanning
        → WorkerStep s (record s {
          shared = record s.shared { counters = count_scan hashes_done s.shared.counters };
        })
    finishes :
        {s : AppSystem} (event : ScanFinishedEvent)
        → s.worker ≡ scanning
        → WorkerStep s (record s { shared = push_event (scan_finished event) s.shared })
    throws :
        {s : AppSystem} (thrown : Error)
        → s.worker ≡ scanning
        → WorkerStep s (record s { worker = throwing thrown })
    stops :
        {s : AppSystem}
        → s.worker ≡ scanning
        → s.main.worker_token ≡ true
        → WorkerStep s (record s { worker = leaving })
    records :
        {s : AppSystem} (thrown : Error)
        → s.worker ≡ throwing thrown
        → WorkerStep s (record s {
          worker = recorded thrown;
          shared = record s.shared {
            first_error = (record_thread_exception thrown worker_name s.shared).first_error;
          };
        })
    tells_error :
        {s : AppSystem} (thrown : Error)
        → s.worker ≡ recorded thrown
        → WorkerStep s (record s {
          worker = leaving;
          shared = record s.shared {
            events = (record_thread_exception thrown worker_name s.shared).events;
          };
        })
    exits :
        {s : AppSystem}
        → s.worker ≡ leaving
        → WorkerStep s (record s {
          worker = left;
          shared = push_event (thread_exited (record { thread_name = worker_name })) s.shared;
        })

  -- The steps of the main thread.
  pub data MainStep : AppSystem → AppSystem → Type 0 where
    interrupts :
        {s : AppSystem}
        → MainStep s (record s {
          main = (request_stop true sigint_reason (s.main, s.shared)).0;
          shared = (request_stop true sigint_reason (s.main, s.shared)).1;
        })
    aborts :
        {s : AppSystem}
        → MainStep s (record s {
          main = (request_stop (has_error s.shared) error_reason (s.main, s.shared)).0;
          shared = (request_stop (has_error s.shared) error_reason (s.main, s.shared)).1;
        })
    takes :
        {s : AppSystem} (event : AppEvent f.Double) (rest : List (AppEvent f.Double))
        → try_pop s.shared.events ≡ some (event, rest)
        → MainStep s (record s {
          main = (take_event (s.main, s.shared)).0;
          shared = (take_event (s.main, s.shared)).1;
          printed = s.printed ++ (event ∷ []);
        })

  pub data Step (s t : AppSystem) : Type 0 where
    by_control : ControlStep s t → Step s t
    by_worker : WorkerStep s t → Step s t
    by_main : MainStep s t → Step s t

  -- What the threads reach from the start.
  pub data Reach (first : AppSystem) : AppSystem → Type 0 where
    here : Reach first first
    later : {s t : AppSystem} → Reach first s → Step s t → Reach first t
