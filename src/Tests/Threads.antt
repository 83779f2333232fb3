-- ===== src/Tests/Threads.antt =====
-- The threads at work on the small job, with the pool of Sessions.
use btccpu.Prelude.{
  ℕ, ◌+◌, ◌-◌, ◌%◌, ◌^◌, ◌<◌, ◌≡◌, ◌⊎◌, refl, Bool, true, false, List, [], ◌∷◌, ◌++◌, All, length,
  none, some, leb, ◌||◌, Result, ok, is_ok, get_ok, get_ok_lem, arith,
}
use btccpu.WorkState.{
  PreparedWork, WorkState, work_state_from_prepared, advance_extranonce2, make_share_submission,
}
use btccpu.WorkState.Template.{IsPrepared, prepare_work-IsPrepared}
use btccpu.U256.{U256, of_u64}
use btccpu.Target.{expand_compact_target, share_target_from_difficulty}
use btccpu.Scan.{ScanResult, ShareCandidate, generation_changed}
use btccpu.Scan.Run.{IsQuiet}
use btccpu.Backend.{cpu_hasher_backend}
use btccpu.Coordinator.{MiningCoordinator, set_job, set_on_share_found}
use btccpu.Client.{Client, SubmitShareResult}
use btccpu.App.{
  PublishedWork, QueuedShare, AppEvent, work_update, thread_exited, Shared, initial, push_event,
}
use btccpu.App.Control.{publish_latest_work, drain_share_queue}
use btccpu.App.Worker.{
  control_name, worker_name, make_scan_chunk, make_scan_control, continue_scanning,
  handle_found_share, run_scan_chunk, worker_round,
}
use btccpu.App.Shares.{chunk_shares}
use btccpu.App.Chunks.{
  HasWork, IsOfChunk, make_scan_chunk_lem, run_scan_chunk-IsOfChunk, worker_round_exhausts,
}
use btccpu.App.Drain.{drain_share_queue-Settles}
use btccpu.App.Drain.Rounds.{Settles, tally}
use btccpu.App.Publish.{IsPublished, publish_latest_work-IsPublished}
use btccpu.App.System.{
  AppSystem, start, Reach, here, later, by_control, by_worker, counts_up, stores, tells_work,
  adopts, finds, queues, tells_share, waits, waited, scanning,
}
use btccpu.Job.{ShareSubmission}
use btccpu.App.{push, try_pop}
use btccpu.App.Worker.{count_found}
use btccpu.App.Bookkeeping.{Reach-Sound}
use btccpu.App.Bookkeeping.Books.{Sound}
use btccpu.App.MainThread.{
  MainState, pushed, exits, IsStopped, IsTaken, has_error, main_round, main_round_stops,
}
use btccpu.Tests.Numbers.{whole_numbers}
use btccpu.Tests.Works.{
  first_work, first_state_lem, small_nbits, small_job, small_subscription, small_work,
  small_work_lem, next_work, next_work_lem,
}
use btccpu.Tests.Pool.{wire, joined, wire-IsConnection}
use btccpu.Tests.Sessions.{pool, talker}

make_scan_chunk_lem_example :
    ((make_scan_chunk 7).nonce_begin ≡ 7)
    × ((make_scan_chunk 7).nonce_end ≡ 2 ^ 32 - 1)
    × (7 + (make_scan_chunk 7).hashes ≡ 2 ^ 32)
make_scan_chunk_lem_example = make_scan_chunk_lem 7 (omega arith)

-- The small work, near its last nonce.
abbrev work : WorkState
work = work_state_from_prepared small_work (2 ^ 32 - 10)

abbrev target : U256
target = record { w0 = 0; w1 = 0; w2 = 0; w3 = 2 ^ 63 }

abbrev published : PublishedWork ℕ
published = record {
  work = work;
  network_target = of_u64 1;
  share_target = target;
  generation = 1;
  share_difficulty = 1;
}

abbrev coordinator : MiningCoordinator (Shared ℕ)
coordinator = record { prepared = some small_work; generation = 1; on_share_found = none }

run_scan_chunk-IsOfChunk_example :
    (result : ScanResult) × (after : Shared ℕ) × (run_scan_chunk cpu_hasher_backend coordinator
        published work 20 29
        (λ hashes. false)
        (λ hashes. 1)
        initial
      ≡ (after, ok (result, set_on_share_found coordinator (some (handle_found_share published)))))
    × (queued : List QueuedShare) × (after.share_queue ≡ [] ++ queued)
    × All (IsOfChunk coordinator small_work published (λ hashes. false) (λ hashes. 1)) queued
    × (after.counters.shares_found % 2 ^ 64 ≡ (0 + length queued) % 2 ^ 64)
    × (after.counters.hashes_done ≡ (0 + result.hashes_done) % 2 ^ 64)
run_scan_chunk-IsOfChunk_example =
    run_scan_chunk-IsOfChunk coordinator small_work published (λ hashes. false) (λ hashes. 1) work
      20 29 initial refl (omega arith) (omega arith)

abbrev listening : MiningCoordinator (Shared ℕ)
listening = set_on_share_found coordinator (some (handle_found_share published))

abbrev set : MiningCoordinator (Shared ℕ)
set = record {
  prepared = some next_work;
  generation = 2;
  on_share_found = some (handle_found_share published);
}

small_IsPrepared : IsPrepared [] small_job small_subscription 5 small_work
small_IsPrepared =
    prepare_work-IsPrepared [] small_job small_subscription 5 small_work small_work_lem

next_IsPrepared : IsPrepared [] small_job small_subscription 6 next_work
next_IsPrepared = prepare_work-IsPrepared [] small_job small_subscription 6 next_work next_work_lem

advances : advance_extranonce2 [] work ≡ ok (work_state_from_prepared next_work 0)
unfolding advance_extranonce2 work_state_from_prepared
advances =
    rw
      (
        small_IsPrepared.keeps_job, small_IsPrepared.keeps_subscription,
        small_IsPrepared.keeps_counter, next_work_lem,
      )
      refl

sets :
    set_job [] listening
      (work_state_from_prepared next_work 0).job
      (work_state_from_prepared next_work 0).subscription
      (work_state_from_prepared next_work 0).extranonce2_counter
    ≡ ok set
unfolding set_job work_state_from_prepared set_on_share_found
sets =
    rw
      (
        next_IsPrepared.keeps_job, next_IsPrepared.keeps_subscription,
        next_IsPrepared.keeps_counter, next_work_lem,
      )
      refl

quiet :
    (i : ℕ)
    → i < 2 ^ 32 - work.nonce
    → IsQuiet (make_scan_control (λ hashes. leb 1000 hashes) (λ hashes. 1) 1) i
unfolding make_scan_control generation_changed work_state_from_prepared
quiet i lt = (ground arith, ground arith)

work_nonce : work.nonce < 2 ^ 32
unfolding work_state_from_prepared
work_nonce = omega arith

coordinator-HasWork : HasWork [] coordinator work small_work
unfolding work_state_from_prepared
coordinator-HasWork = (
  refl,
  rw
      (
        small_IsPrepared.keeps_job, small_IsPrepared.keeps_subscription,
        small_IsPrepared.keeps_counter,
      )
      small_work_lem,
)

worker_round_exhausts_example :
    (after : Shared ℕ) × (worker_round [] cpu_hasher_backend published
        (λ hashes. leb 1000 hashes)
        (λ hashes. 1)
        work
        coordinator
        initial
      ≡ (after, ok (continue_scanning, work_state_from_prepared next_work 0, set)))
    × (after.share_queue
        ≡ [] ++ chunk_shares small_work (of_u64 1) target 1 (2 ^ 32 - work.nonce) work.nonce)
    × (after.counters.shares_found % 2 ^ 64
        ≡ (0
            + length (chunk_shares small_work (of_u64 1) target 1 (2 ^ 32 - work.nonce) work.nonce))
          % 2 ^ 64)
    × (after.counters.hashes_done ≡ (0 + (2 ^ 32 - work.nonce)) % 2 ^ 64)
    × (following : PreparedWork) × HasWork [] set (work_state_from_prepared next_work 0) following
worker_round_exhausts_example =
    worker_round_exhausts coordinator small_work published (λ hashes. leb 1000 hashes) (λ hashes. 1)
      [] work (work_state_from_prepared next_work 0) set initial coordinator-HasWork work_nonce
      quiet advances sets

-- Two shares, the first one of an old generation.
abbrev share_of : ℕ → QueuedShare
share_of generation = record {
  submission = make_share_submission small_work 7;
  candidate = record {
    work = work;
    nonce = 7;
    hash = [];
    is_block_candidate = false;
    generation = generation;
  };
}

abbrev two_shares : Shared ℕ
two_shares = record initial { work_generation = 2; share_queue = share_of 1 ∷ share_of 2 ∷ [] }

drain_share_queue-Settles_example :
    ((r : Result (Bool × Client whole_numbers pool wire)) × ((drain_share_queue whole_numbers pool
          wire 9 talker two_shares).1
        ≡ some r))
    × ((after : Shared ℕ) (did_work : Bool) (next : Client whole_numbers pool wire)
        → drain_share_queue whole_numbers pool wire 9 talker two_shares
          ≡ (after, some (ok (did_work, next)))
        → (answers : List SubmitShareResult) × (events : List (AppEvent ℕ)) × Settles whole_numbers
            pool wire 9 2 talker
            (share_of 1 ∷ share_of 2 ∷ [])
            answers
            events
            next
          × (after ≡ record two_shares {
            share_queue = [];
            events = [] ++ events;
            counters = tally answers two_shares.counters;
          }))
drain_share_queue-Settles_example =
    drain_share_queue-Settles whole_numbers pool wire joined 9 talker two_shares wire-IsConnection
      (omega arith)

-- A client that has the small job.
abbrev miner : Client whole_numbers pool wire
miner = record talker { subscription = some small_subscription; current_job = some small_job }

target_is_ok : is_ok (share_target_from_difficulty whole_numbers 1) ≡ true
unfolding share_target_from_difficulty
target_is_ok = refl

abbrev first_target : U256
first_target = get_ok (share_target_from_difficulty whole_numbers 1) target_is_ok

target_lem : share_target_from_difficulty whole_numbers 1 ≡ ok first_target
target_lem = get_ok_lem (share_target_from_difficulty whole_numbers 1) target_is_ok

abbrev first_published : PublishedWork ℕ
first_published = record {
  work = work_state_from_prepared first_work 0;
  network_target = expand_compact_target 0x1701f0cc;
  share_target = first_target;
  generation = 1;
  share_difficulty = 1;
}

abbrev after_publication : Shared ℕ
after_publication =
    push_event
      (work_update (record {
        job_id = small_job.job_id;
        ntime_hex = small_job.ntime;
        clean_jobs = true;
        difficulty = 1;
        generation = 1;
        raw_notify = [];
        parsed_summary = [];
      }))
      (record initial { work_generation = 1; published = some first_published })

publication : publish_latest_work whole_numbers pool wire [] miner initial ≡ ok after_publication
unfolding publish_latest_work
publication = rw (first_state_lem, small_nbits, target_lem) refl

publish_latest_work-IsPublished_example :
    (((miner.subscription ≡ none) ⊎ (miner.current_job ≡ none)) × (after_publication ≡ initial))
    ⊎ IsPublished whole_numbers pool wire [] miner initial after_publication
publish_latest_work-IsPublished_example =
    publish_latest_work-IsPublished whole_numbers pool wire [] miner initial after_publication
      publication

abbrev found_share : ShareCandidate
found_share = record {
  work = work_state_from_prepared first_work 0;
  nonce = 7;
  hash = [];
  is_block_candidate = false;
  generation = 1;
}

-- No stop is requested.
abbrev running : MainState
running = record {
  stop_requested = false;
  control_exited = false;
  worker_exited = false;
  control_token = false;
  worker_token = false;
}

-- A work is published and adopted, a share is found and queued, and the control thread, which waits,
-- pops it.
abbrev submission : ShareSubmission
submission = make_share_submission first_work 7

abbrev after_find : Shared ℕ
after_find = handle_found_share first_published submission found_share after_publication

abbrev waiting_state : AppSystem whole_numbers pool wire []
waiting_state = record {
  shared = record after_find { share_queue = [] };
  client = miner;
  adopted = some first_published;
  control = waited (record { submission = submission; candidate = found_share });
  worker = scanning;
  main = running;
  printed = [];
  lost = 0;
}

waiting_run :
    Reach whole_numbers pool wire [] (start whole_numbers pool wire [] miner) waiting_state
unfolding handle_found_share count_found push try_pop
waiting_run =
    later
      (later
        (later
          (later
            (later
              (later
                (later
                  (later here
                    (by_control (counts_up first_published _ refl (omega arith) refl publication)))
                  (by_control (stores first_published _ refl)))
                (by_control (tells_work _ refl)))
              (by_worker (adopts first_published refl refl)))
            (by_worker (finds first_published submission found_share refl refl refl)))
          (by_worker (queues first_published submission found_share refl)))
        (by_worker (tells_share first_published submission found_share refl)))
      (by_control
        (waits (record { submission = submission; candidate = found_share }) [] refl refl))

Reach-Sound_example : Sound whole_numbers pool wire [] waiting_state
Reach-Sound_example = Reach-Sound whole_numbers pool wire [] miner waiting_state waiting_run

-- A signal comes while an event waits in the queue.
abbrev leaving : Shared ℕ
leaving = record initial { events = thread_exited (record { thread_name = control_name }) ∷ [] }

main_round_stops_example :
    IsStopped true (has_error leaving) running (main_round true (running, leaving)).0
    × (taken : List (AppEvent ℕ)) × IsTaken
        (leaving.events ++ pushed true (has_error leaving) running)
        taken
        (main_round true (running, leaving)).1.events
    × ((main_round true (running, leaving)).0.control_exited ≡ (false || exits control_name taken))
    × ((main_round true (running, leaving)).0.worker_exited ≡ (false || exits worker_name taken))
main_round_stops_example = main_round_stops true running leaving
