-- ===== src/App/Bookkeeping/Worker.antt =====
-- src/main.cpp: the steps of the worker and of the main thread keep the books in order.
use btccpu.Prelude.{
  ℕ, ◌≤◌, ◌≡◌, inl, inr, refl, ap, subst, Bool, true, not, ◌&&◌, List, [], ◌∷◌, ◌++◌, All-append,
  some, Bool-cases, length-append, arith,
}
use mathlib.Core.Option.{some-injective}
use btccpu.Target.{FloatingPoint}
use btccpu.Json.{Json}
use btccpu.Connection.{Connection}
use btccpu.App.{
  PublishedWork, QueuedShare, AppEvent, chunk_started, share_found, scan_finished, shutdown, error,
  thread_exited, push, try_pop, record_thread_exception,
}
use btccpu.App.Worker.{count_found, count_scan, handle_found_share}
use btccpu.App.MainThread.{request_stop, take_event, has_error, sigint_reason, error_reason}
use btccpu.App.System.{
  AppSystem, WorkerStep, MainStep, stops, records, tells_error, exits, adopts, begins, progresses,
  finds, queues, tells_share, counts_scan, finishes, throws, interrupts, aborts, takes,
}
use btccpu.App.Bookkeeping.Books.{
  submits_of, discards_of, total, total-append, try_pop-some, unqueued, Finds, IsSound,
  IsSound-keep, IsSound-phase, IsSound-event, Sound,
}

module _ (f : FloatingPoint) (json : Json f.Double) (c : Connection) (beyond : List ℕ) where
  pub WorkerStep-Sound :
      (s t : AppSystem f json c beyond)
      → WorkerStep f json c beyond s t
      → Sound f json c beyond s
      → Sound f json c beyond t
  unfolding push handle_found_share count_found count_scan record_thread_exception
  WorkerStep-Sound s t (adopts p e has) x = record {
    current = x.current;
    known = λ r is_r.
        let same = ap PublishedWork.generation (some-injective p r is_r) in
        let old = x.current p has in omega arith;
    in_queue = x.in_queue;
    holds = x.holds;
    finds = x.finds;
    answers = x.answers;
    shares = x.shares;
  }
  WorkerStep-Sound s t (begins event e) x =
      IsSound-event (chunk_started event) refl refl x refl x.holds x.finds refl refl
  WorkerStep-Sound s t (progresses hashes_done e) x =
      IsSound-keep s.printed s.lost s.shared.events _ s.shared.startup_announced
        s.shared.first_error x refl x.holds x.finds x.answers x.shares
  WorkerStep-Sound s t (finds p submission candidate e has same) x =
      let old_p = x.known p has in
      let w = ap unqueued e in
      IsSound-keep s.printed s.lost s.shared.events _ s.shared.startup_announced
        s.shared.first_error x refl x.holds (omega arith) x.answers
        (let old = x.shares in omega arith)
  WorkerStep-Sound s t (queues p submission candidate e) x =
      let item : QueuedShare = record { submission = submission; candidate = candidate } in
      let n = length-append s.shared.share_queue (item ∷ []) in
      let w = ap unqueued e in
      let not_later : candidate.generation ≤ s.shared.work_generation =
        subst (λ k. Finds k s.shared.work_generation) e x.finds in
      record {
        current = x.current;
        known = x.known;
        in_queue = All-append _ s.shared.share_queue (item ∷ []) x.in_queue (not_later, tt);
        holds = x.holds;
        finds = tt;
        answers = x.answers;
        shares = let old = x.shares in omega arith;
      }
  WorkerStep-Sound s t (tells_share p submission candidate e) x =
      IsSound-event (share_found _) refl refl x refl x.holds tt refl
        (let w = ap unqueued e in omega arith)
  WorkerStep-Sound s t (counts_scan hashes_done e) x =
      IsSound-keep s.printed s.lost s.shared.events _ s.shared.startup_announced
        s.shared.first_error x refl x.holds x.finds x.answers x.shares
  WorkerStep-Sound s t (finishes event e) x =
      IsSound-event (scan_finished event) refl refl x refl x.holds x.finds refl refl
  WorkerStep-Sound s t (throws thrown e) x =
      IsSound-phase x refl x.holds tt refl (let w = ap unqueued e in omega arith)
  WorkerStep-Sound s t (stops e _) x =
      IsSound-phase x refl x.holds tt refl (let w = ap unqueued e in omega arith)
  WorkerStep-Sound s t (records thrown e) x =
      let w = ap unqueued e in
      IsSound-keep s.printed s.lost s.shared.events s.shared.counters s.shared.startup_announced _ x
        refl x.holds tt x.answers (let old = x.shares in omega arith)
  WorkerStep-Sound s t (tells_error thrown e) x =
      IsSound-event (error _) refl refl x refl x.holds tt refl
        (let w = ap unqueued e in omega arith)
  WorkerStep-Sound s t (exits e) x =
      IsSound-event (thread_exited _) refl refl x refl x.holds tt refl
        (let w = ap unqueued e in omega arith)

  request_stop-Sound :
      (wanted : Bool) (reason : List ℕ) (s : AppSystem f json c beyond)
      → Sound f json c beyond s
      → IsSound s.control s.worker
          (request_stop wanted reason (s.main, s.shared)).1
          s.adopted
          s.printed
          s.lost
  unfolding request_stop
  request_stop-Sound wanted reason s x = elim (Bool-cases (wanted && not s.main.stop_requested)) [
    | inl e ↦
        rw (e, request_stop) (IsSound-event (shutdown _) refl refl x refl x.holds x.finds refl refl)
    | inr e ↦ rw (e, request_stop) x
  ]

  -- The main thread takes an event.
  takes-IsSound :
      (s : AppSystem f json c beyond) (event : AppEvent f.Double) (rest : List (AppEvent f.Double))
      → try_pop s.shared.events ≡ some (event, rest)
      → Sound f json c beyond s
      → IsSound s.control s.worker
          (record s.shared { events = rest })
          s.adopted
          (s.printed ++ (event ∷ []))
          s.lost
  takes-IsSound s event rest popping x =
      let e = ap (total submits_of) (try_pop-some s.shared.events event rest popping) in
      let g = ap (total discards_of) (try_pop-some s.shared.events event rest popping) in
      let n = total-append submits_of s.printed (event ∷ []) in
      let m = total-append discards_of s.printed (event ∷ []) in
      IsSound-keep (s.printed ++ (event ∷ [])) s.lost rest s.shared.counters
        s.shared.startup_announced s.shared.first_error x refl x.holds x.finds
        (let old = x.answers in omega arith) (let old = x.shares in omega arith)

  pub MainStep-Sound :
      (s t : AppSystem f json c beyond)
      → MainStep f json c beyond s t
      → Sound f json c beyond s
      → Sound f json c beyond t
  unfolding take_event
  MainStep-Sound s t interrupts x = request_stop-Sound true sigint_reason s x
  MainStep-Sound s t aborts x = request_stop-Sound (has_error s.shared) error_reason s x
  MainStep-Sound s t (takes event rest first) x =
      rw (first, take_event) (takes-IsSound s event rest first x)
