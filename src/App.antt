-- ===== src/App.antt =====
-- src/main.cpp: what the threads of the program share. A queue is the list of its items, the first one
-- in front; a mutex makes each operation on a queue one step.
pub mod Control
pub mod Worker
pub mod Drain
pub mod Publish
pub mod Shares
pub mod Chunks
pub mod System
pub mod Bookkeeping
pub mod MainThread
use btccpu.Prelude.{
  ℕ, ◌+◌, ◌%◌, ◌^◌, Bool, true, false, List, [], ◌∷◌, ◌++◌, Option, none, some, if◌then◌else◌,
  Error,
}
use btccpu.Job.{ShareSubmission}
use btccpu.WorkState.{WorkState}
use btccpu.U256.{U256}
use btccpu.Scan.{ScanResult, ShareCandidate, increment}

pub record PublishedWork (Double : Type 0) : Type 0 where
  pub work : WorkState
  pub network_target : U256
  pub share_target : U256
  pub generation : ℕ
  pub share_difficulty : Double

pub record QueuedShare : Type 0 where
  pub submission : ShareSubmission
  pub candidate : ShareCandidate

pub record Counters : Type 0 where
  pub hashes_done : ℕ
  pub shares_found : ℕ
  pub blocks_found : ℕ
  pub shares_accepted : ℕ
  pub shares_rejected : ℕ
  pub current_scan_hashes_done : ℕ

pub record StartupEvent (Double : Type 0) : Type 0 where
  pub work : WorkState
  pub difficulty : Double
  pub share_difficulty : ℕ
  pub extranonce1 : List ℕ
  pub extranonce2_size : ℕ

pub record WorkUpdateEvent (Double : Type 0) : Type 0 where
  pub job_id : List ℕ
  pub ntime_hex : List ℕ
  pub clean_jobs : Bool
  pub difficulty : Double
  pub generation : ℕ
  pub raw_notify : List ℕ
  pub parsed_summary : List ℕ

pub record ChunkStartedEvent : Type 0 where
  pub job_id : List ℕ
  pub extranonce2_hex : List ℕ
  pub generation : ℕ
  pub nonce_begin : ℕ
  pub nonce_end : ℕ

pub record ShareFoundEvent : Type 0 where
  pub job_id : List ℕ
  pub extranonce2_hex : List ℕ
  pub generation : ℕ
  pub nonce : ℕ
  pub hash : List ℕ
  pub share_target : U256
  pub network_target : U256
  pub block_candidate : Bool
  pub coinbase_hex : List ℕ
  pub coinbase_hash_hex : List ℕ
  pub merkle_root_raw_hex : List ℕ

pub record ShareSubmitEvent : Type 0 where
  pub job_id : List ℕ
  pub extranonce2_hex : List ℕ
  pub ntime_hex : List ℕ
  pub nonce_hex : List ℕ
  pub generation : ℕ
  pub nonce : ℕ
  pub accepted : Bool
  pub error_text : List ℕ
  pub raw_request : List ℕ
  pub raw_response : List ℕ

pub record StaleShareDiscardedEvent : Type 0 where
  pub job_id : List ℕ
  pub nonce : ℕ
  pub candidate_generation : ℕ
  pub current_generation : ℕ

pub record ScanFinishedEvent : Type 0 where
  pub job_id : List ℕ
  pub extranonce2_hex : List ℕ
  pub generation : ℕ
  pub result : ScanResult

pub record ShutdownEvent : Type 0 where
  pub reason : List ℕ

-- The text of an exception is its class.
pub record ErrorEvent : Type 0 where
  pub source : List ℕ
  pub message : Error

pub record ThreadExitedEvent : Type 0 where
  pub thread_name : List ℕ

pub data AppEvent (Double : Type 0) : Type 0 where
  startup : StartupEvent Double → AppEvent Double
  work_update : WorkUpdateEvent Double → AppEvent Double
  chunk_started : ChunkStartedEvent → AppEvent Double
  share_found : ShareFoundEvent → AppEvent Double
  share_submit : ShareSubmitEvent → AppEvent Double
  stale_share_discarded : StaleShareDiscardedEvent → AppEvent Double
  scan_finished : ScanFinishedEvent → AppEvent Double
  shutdown : ShutdownEvent → AppEvent Double
  error : ErrorEvent → AppEvent Double
  thread_exited : ThreadExitedEvent → AppEvent Double

-- `push` of both queues.
unfoldable pub push : {A : Type 0} → List A → A → List A
push queue item = queue ++ (item ∷ [])

-- `try_pop` of both queues.
unfoldable pub try_pop : {A : Type 0} → List A → Option (A × List A)
try_pop [] = none
try_pop (item ∷ queue) = some (item, queue)

-- `wait_pop_for` of the shares, when the wait is over: the queue is then not empty, or a stop is
-- requested, or the time is up and neither is so.
unfoldable pub wait_pop_for : {A : Type 0} → Bool → List A → Option (A × List A)
wait_pop_for stop_requested queue = if stop_requested then none else try_pop queue

-- The variables of `main` that both threads use: `shared_work.published`, `work_generation`, the
-- queues, the counters, `startup_announced` and `first_error`.
pub record Shared (Double : Type 0) : Type 0 where
  pub published : Option (PublishedWork Double)
  pub work_generation : ℕ
  pub share_queue : List QueuedShare
  pub events : List (AppEvent Double)
  pub counters : Counters
  pub startup_announced : Bool
  pub first_error : Option Error

abbrev pub no_counts : Counters
no_counts = record {
  hashes_done = 0;
  shares_found = 0;
  blocks_found = 0;
  shares_accepted = 0;
  shares_rejected = 0;
  current_scan_hashes_done = 0;
}

-- The variables at the start of `main`.
abbrev pub initial : {Double : Type 0} → Shared Double
initial = record {
  published = none;
  work_generation = 0;
  share_queue = [];
  events = [];
  counters = no_counts;
  startup_announced = false;
  first_error = none;
}

-- `events.push`
abbrev pub push_event : {Double : Type 0} → AppEvent Double → Shared Double → Shared Double
push_event event shared = record shared { events = push shared.events event }

-- Keeps the first exception, and tells of each.
unfoldable pub record_thread_exception :
    {Double : Type 0} → Error → List ℕ → Shared Double → Shared Double
record_thread_exception thrown source shared =
    push_event (error (record { source = source; message = thrown })) (record shared {
      first_error = elim shared.first_error [ none ↦ some thrown | some first ↦ some first ];
    })
