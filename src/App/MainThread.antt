-- ===== src/App/MainThread.antt =====
-- src/main.cpp: the main thread's loop, without its output, and that it stops the others once.
use btccpu.Prelude.{
  Bool-cases, subst, equal_text-true, append-nil, ℕ, arith, ◌≡◌, refl, ap, ◌∙◌, Bool, true, false,
  not, ◌||◌, ◌&&◌, List, [], ◌∷◌, ◌++◌, none, some, inl, inr, equal_text, if◌then◌else◌,
}
use btccpu.App.{
  startup, work_update, chunk_started, share_found, share_submit, stale_share_discarded,
  scan_finished, error, AppEvent, shutdown, thread_exited, push, try_pop, Shared, push_event,
}
use btccpu.App.Worker.{worker_name, control_name}

pub record EventRenderOutcome : Type 0 where
  pub control_exited : Bool
  pub worker_exited : Bool

-- The variables of the loop, and whether the stop token of each thread says that a stop is requested.
pub record MainState : Type 0 where
  pub stop_requested : Bool
  pub control_exited : Bool
  pub worker_exited : Bool
  pub control_token : Bool
  pub worker_token : Bool

-- "SIGINT received; requesting graceful shutdown"
abbrev pub sigint_reason : List ℕ
sigint_reason =
    (b'S' ∷ b'I' ∷ b'G' ∷ b'I' ∷ b'N' ∷ b'T' ∷ 32 ∷ b'r' ∷ b'e' ∷ b'c' ∷ b'e' ∷ b'i' ∷ b'v' ∷ b'e'
      ∷ b'd' ∷ b';' ∷ 32 ∷ b'r' ∷ b'e' ∷ b'q' ∷ b'u' ∷ b'e' ∷ b's' ∷ b't' ∷ b'i' ∷ b'n' ∷ b'g' ∷ 32
      ∷ b'g' ∷ b'r' ∷ b'a' ∷ b'c' ∷ b'e' ∷ b'f' ∷ b'u' ∷ b'l' ∷ 32 ∷ b's' ∷ b'h' ∷ b'u' ∷ b't'
      ∷ b'd' ∷ b'o' ∷ b'w' ∷ b'n' ∷ [])

-- "fatal worker/control error; requesting shutdown"
abbrev pub error_reason : List ℕ
error_reason =
    (b'f' ∷ b'a' ∷ b't' ∷ b'a' ∷ b'l' ∷ 32 ∷ b'w' ∷ b'o' ∷ b'r' ∷ b'k' ∷ b'e' ∷ b'r' ∷ b'/' ∷ b'c'
      ∷ b'o' ∷ b'n' ∷ b't' ∷ b'r' ∷ b'o' ∷ b'l' ∷ 32 ∷ b'e' ∷ b'r' ∷ b'r' ∷ b'o' ∷ b'r' ∷ b';' ∷ 32
      ∷ b'r' ∷ b'e' ∷ b'q' ∷ b'u' ∷ b'e' ∷ b's' ∷ b't' ∷ b'i' ∷ b'n' ∷ b'g' ∷ 32 ∷ b's' ∷ b'h'
      ∷ b'u' ∷ b't' ∷ b'd' ∷ b'o' ∷ b'w' ∷ b'n' ∷ [])

-- The test of the loop.
unfoldable pub threads_exited : MainState → Bool
threads_exited main = main.control_exited && main.worker_exited

-- The stop, and both threads' tokens, behind a pass.
abbrev pub IsStopped : Bool → Bool → MainState → MainState → Type 0
IsStopped sigint failed before after =
    (after.stop_requested ≡ (before.stop_requested || (sigint || failed)))
    × (after.control_token
        ≡ (before.control_token || ((sigint || failed) && not before.stop_requested)))
    × (after.worker_token
        ≡ (before.worker_token || ((sigint || failed) && not before.stop_requested)))

module _ {Double : Type 0} where
  -- What an event says about the threads.
  unfoldable pub render_outcome : AppEvent Double → EventRenderOutcome
  render_outcome (thread_exited e) =
      if equal_text e.thread_name control_name
      then record { control_exited = true; worker_exited = false }
      else if equal_text e.thread_name worker_name
      then record { control_exited = false; worker_exited = true }
      else record { control_exited = false; worker_exited = false }
  render_outcome _ = record { control_exited = false; worker_exited = false }

  -- `first_error`
  abbrev pub has_error : Shared Double → Bool
  has_error shared = elim shared.first_error [ none ↦ false | some e ↦ true ]

  -- A stop is requested once, for a signal or an error, of both threads.
  unfoldable pub request_stop :
      Bool → List ℕ → MainState × Shared Double → MainState × Shared Double
  request_stop wanted reason (main, shared) =
      if wanted && not main.stop_requested
      then (
        record main { stop_requested = true; control_token = true; worker_token = true },
        push_event (shutdown (record { reason = reason })) shared,
      )
      else (main, shared)

  -- The first event of the queue, or the wait is over without one.
  unfoldable pub take_event : MainState × Shared Double → MainState × Shared Double
  take_event (main, shared) = elim (try_pop shared.events) [
    | none ↦ (main, shared)
    | some (event, rest) ↦ (
      record main {
        control_exited = main.control_exited || (render_outcome event).control_exited;
        worker_exited = main.worker_exited || (render_outcome event).worker_exited;
      },
      record shared { events = rest },
    )
  ]

  -- A pass of the loop, with whether a signal has come.
  unfoldable pub main_round : Bool → MainState × Shared Double → MainState × Shared Double
  main_round sigint_requested (main, shared) =
      let (stopped, told) = request_stop sigint_requested sigint_reason (main, shared) in
      take_event (request_stop (has_error told) error_reason (stopped, told))

  -- Both requests of a pass.
  abbrev request_stops : Bool → MainState × Shared Double → MainState × Shared Double
  request_stops sigint_requested (main, shared) =
      let (stopped, told) = request_stop sigint_requested sigint_reason (main, shared) in
      request_stop (has_error told) error_reason (stopped, told)

  -- What a pass pushes: nothing when a stop was requested before, or neither a signal has come nor an
  -- exception was recorded; and else one shutdown event, with the signal's reason if there is one.
  abbrev pub pushed : Bool → Bool → MainState → List (AppEvent Double)
  pushed sigint failed main =
      if main.stop_requested
      then []
      else if sigint
      then shutdown (record { reason = sigint_reason }) ∷ []
      else if failed
      then shutdown (record { reason = error_reason }) ∷ []
      else []

  -- The first event was taken, if there was one.
  abbrev pub IsTaken :
      List (AppEvent Double) → List (AppEvent Double) → List (AppEvent Double) → Type 0
  IsTaken [] taken left = (taken ≡ []) × (left ≡ [])
  IsTaken (event ∷ rest) taken left = (taken ≡ event ∷ []) × (left ≡ rest)

  -- Whether one of the events says that the thread with this name has exited.
  abbrev pub exits : List ℕ → List (AppEvent Double) → Bool
  exits name [] = false
  exits name (thread_exited e ∷ events) = equal_text e.thread_name name || exits name events
  exits name (event ∷ events) = exits name events

  request_stops_lem :
      (sigint : Bool) (main : MainState) (shared : Shared Double)
      → IsStopped sigint (has_error shared) main (request_stops sigint (main, shared)).0
        × ((request_stops sigint (main, shared)).1.events
            ≡ shared.events ++ pushed sigint (has_error shared) main)
        × ((request_stops sigint (main, shared)).0.control_exited ≡ main.control_exited)
        × ((request_stops sigint (main, shared)).0.worker_exited ≡ main.worker_exited)
  unfolding request_stop push
  request_stops_lem sigint main shared = let n = append-nil shared.events in ground arith

  -- An event says that a thread has exited, and which.
  render_outcome-exits :
      (event : AppEvent Double)
      → ((render_outcome event).control_exited ≡ exits control_name (event ∷ []))
        × ((render_outcome event).worker_exited ≡ exits worker_name (event ∷ []))
  unfolding render_outcome
  render_outcome-exits (startup e) = (refl, refl)
  render_outcome-exits (work_update e) = (refl, refl)
  render_outcome-exits (chunk_started e) = (refl, refl)
  render_outcome-exits (share_found e) = (refl, refl)
  render_outcome-exits (share_submit e) = (refl, refl)
  render_outcome-exits (stale_share_discarded e) = (refl, refl)
  render_outcome-exits (scan_finished e) = (refl, refl)
  render_outcome-exits (shutdown e) = (refl, refl)
  render_outcome-exits (error e) = (refl, refl)
  render_outcome-exits (thread_exited e) =
      elim (Bool-cases (equal_text e.thread_name control_name)) [
        | inl is_control ↦
            let name = equal_text-true e.thread_name control_name is_control in
            let not_worker : equal_text e.thread_name worker_name ≡ false =
              ap (λ n. equal_text n worker_name) name in
            rw (is_control, not_worker) (refl, refl)
        | inr no_control ↦ elim (Bool-cases (equal_text e.thread_name worker_name)) [
          | inl is_worker ↦ rw (no_control, is_worker) (refl, refl)
          | inr no_worker ↦ rw (no_control, no_worker) (refl, refl)
        ]
      ]

  take_event_lem :
      (main : MainState) (shared : Shared Double)
      → (taken : List (AppEvent Double)) × IsTaken shared.events taken
          (take_event (main, shared)).1.events
        × ((take_event (main, shared)).0.stop_requested ≡ main.stop_requested)
        × ((take_event (main, shared)).0.control_token ≡ main.control_token)
        × ((take_event (main, shared)).0.worker_token ≡ main.worker_token)
        × ((take_event (main, shared)).0.control_exited
            ≡ (main.control_exited || exits control_name taken))
        × ((take_event (main, shared)).0.worker_exited
            ≡ (main.worker_exited || exits worker_name taken))
  unfolding take_event try_pop render_outcome
  take_event_lem main shared = from shared.events
    where
      from :
          (events : List (AppEvent Double))
          → (let after = take_event (main, record shared { events = events }) in
              (taken : List (AppEvent Double)) × IsTaken events taken after.1.events
              × (after.0.stop_requested ≡ main.stop_requested)
              × (after.0.control_token ≡ main.control_token)
              × (after.0.worker_token ≡ main.worker_token)
              × (after.0.control_exited ≡ (main.control_exited || exits control_name taken))
              × (after.0.worker_exited ≡ (main.worker_exited || exits worker_name taken)))
      from [] = ([], (refl, refl), refl, refl, refl, ground arith, ground arith)
      from (event ∷ rest) =
          let (control, worker) = render_outcome-exits event in
          (
            event ∷ [],
            (refl, refl),
            refl,
            refl,
            refl,
            ap (λ b. main.control_exited || b) control,
            ap (λ b. main.worker_exited || b) worker,
          )

  -- A pass of the main thread's loop requests a stop of both threads when a signal has come or an
  -- exception was recorded and no stop was requested before; it then pushes one shutdown event with
  -- the reason, and none otherwise; it takes the first event that is then in the queue, if there is
  -- one, and notes whether it says that a thread has exited.
  pub main_round_stops :
      (sigint_requested : Bool) (main : MainState) (shared : Shared Double)
      → IsStopped sigint_requested
          (has_error shared)
          main
          (main_round sigint_requested (main, shared)).0
        × (taken : List (AppEvent Double)) × IsTaken
            (shared.events ++ pushed sigint_requested (has_error shared) main)
            taken
            (main_round sigint_requested (main, shared)).1.events
        × ((main_round sigint_requested (main, shared)).0.control_exited
            ≡ (main.control_exited || exits control_name taken))
        × ((main_round sigint_requested (main, shared)).0.worker_exited
            ≡ (main.worker_exited || exits worker_name taken))
  unfolding main_round
  main_round_stops sigint_requested main shared =
      let asked = request_stops sigint_requested (main, shared) in
      let ((stop, control, worker), events, control_exits, worker_exits) =
        request_stops_lem sigint_requested main shared in
      let (taken, is_taken, same_stop, same_control, same_worker, control_ends, worker_ends) =
        take_event_lem asked.0 asked.1 in
      (
        (same_stop ∙ stop, same_control ∙ control, same_worker ∙ worker),
        taken,
        subst (λ (l : List (AppEvent Double)). IsTaken l taken (take_event asked).1.events) events
            is_taken,
        control_ends ∙ ap (λ b. b || exits control_name taken) control_exits,
        worker_ends ∙ ap (λ b. b || exits worker_name taken) worker_exits,
      )
