-- ===== src/App/Bookkeeping/Control.antt =====
-- src/main.cpp: the steps of the control thread keep the books in order.
use btccpu.Prelude.{
  ℕ, ◌+◌, ◌^◌, ◌≤◌, ◌<◌, ◌≡◌, refl, sym, ap, subst, Bool, true, false, List, [], ◌∷◌, All-append,
  Option, none, some, length, length-append, if◌then◌else◌, arith,
}
use mathlib.Core.Option.{some-injective}
use btccpu.Scan.{increment}
use btccpu.Target.{FloatingPoint}
use btccpu.Json.{Json}
use btccpu.Connection.{Connection}
use btccpu.Client.{Client}
use btccpu.App.{
  PublishedWork, QueuedShare, startup, work_update, error, thread_exited, push, try_pop, Shared,
  push_event, record_thread_exception,
}
use btccpu.App.Control.{stale_event, submit_event, maybe_publish_startup_event}
use btccpu.App.System.{
  AppSystem, ControlStep, polls, fails_to_poll, counts_up, stores, tells_work, fails_to_publish,
  announces, pops, finds_stale, discards, submits, fails_to_submit, counts_answer, tells_answer,
  waits, puts_back, drops, stops, records, tells_error, exits, ControlPhase, publishing, popped,
  waited, looping,
}
use btccpu.App.Bookkeeping.Books.{
  submits_of, discards_of, total-append, try_pop-some, NoneLater, All-weaken, count_answer-accepted,
  unstored, untold, held, Holds, Finds-weaken, IsSound, IsSound-keep, IsSound-phase, IsSound-event,
  Sound,
}

module _ (f : FloatingPoint) (json : Json f.Double) (c : Connection) (beyond : List ℕ) where
  -- The event of the startup, by what was announced and published.
  abbrev announce_of :
      Bool → Option (PublishedWork f.Double) → Client f json c → Shared f.Double → Shared f.Double
  announce_of announced published client shared =
      if announced
      then shared
      else (let after : Shared f.Double = record shared { startup_announced = true } in
          elim published [
            | none ↦ after
            | some p ↦
                push_event
                  (startup (record {
                    work = p.work;
                    difficulty = client.difficulty;
                    share_difficulty = f.truncate_u64 p.share_difficulty;
                    extranonce1 = p.work.subscription.extranonce1;
                    extranonce2_size = p.work.subscription.extranonce2_size;
                  }))
                  after
          ])

  announced-IsSound :
      (s : AppSystem f json c beyond)
      → Sound f json c beyond s
      → IsSound s.control s.worker
          (record s.shared { startup_announced = true })
          s.adopted
          s.printed
          s.lost
  announced-IsSound s x =
      IsSound-keep s.printed s.lost s.shared.events s.shared.counters true s.shared.first_error x
        refl x.holds x.finds x.answers x.shares

  announce_of-IsSound :
      (announced : Bool) (published : Option (PublishedWork f.Double))
      (s : AppSystem f json c beyond)
      → Sound f json c beyond s
      → IsSound s.control s.worker
          (announce_of announced published s.client s.shared)
          s.adopted
          s.printed
          s.lost
  announce_of-IsSound true published s x = x
  announce_of-IsSound false none s x = announced-IsSound s x
  announce_of-IsSound false (some p) s x =
      IsSound-event (startup _) refl refl (announced-IsSound s x) refl x.holds x.finds refl refl

  announces-Sound :
      (s : AppSystem f json c beyond)
      → Sound f json c beyond s
      → Sound f json c beyond
          (record s { shared = maybe_publish_startup_event f json c s.client s.shared })
  unfolding maybe_publish_startup_event
  announces-Sound s x = announce_of-IsSound s.shared.startup_announced s.shared.published s x

  -- The first share leaves the queue, and is held.
  pops-IsSound :
      (s : AppSystem f json c beyond) (control : ControlPhase f.Double) (q : QueuedShare)
      (rest : List QueuedShare)
      → s.control ≡ looping
      → try_pop s.shared.share_queue ≡ some (q, rest)
      → unstored control ≡ 0
      → untold control ≡ 0
      → held control ≡ 1
      → (q.candidate.generation ≤ s.shared.work_generation → Holds control s.shared.work_generation)
      → Sound f json c beyond s
      → IsSound control s.worker (record s.shared { share_queue = rest }) s.adopted s.printed s.lost
  pops-IsSound s control q rest e popping kept told one holds x =
      let split = try_pop-some s.shared.share_queue q rest popping in
      let all : NoneLater s.shared.work_generation (q ∷ rest) =
        subst (NoneLater s.shared.work_generation) split x.in_queue in
      let n = ap length split in
      let u = ap unstored e in
      let v = ap untold e in
      let h = ap held e in
      record {
        current = λ p has. let old = x.current p has in omega arith;
        known = x.known;
        in_queue = all.1;
        holds = holds all.0;
        finds = x.finds;
        answers = let old = x.answers in omega arith;
        shares = let old = x.shares in omega arith;
      }

  -- A generation is counted up.
  counts_up-Sound :
      (s : AppSystem f json c beyond) (next : PublishedWork f.Double)
      (control : ControlPhase f.Double)
      → s.control ≡ looping
      → s.shared.work_generation + 1 < 2 ^ 64
      → unstored control ≡ 1
      → untold control ≡ 0
      → held control ≡ 0
      → Holds control (increment s.shared.work_generation)
      → Sound f json c beyond s
      → IsSound control s.worker
          (record s.shared { work_generation = increment s.shared.work_generation })
          s.adopted
          s.printed
          s.lost
  counts_up-Sound s next control e small kept told none_held holds x =
      let up : increment s.shared.work_generation ≡ s.shared.work_generation + 1 = omega arith in
      let u = ap unstored e in
      let v = ap untold e in
      let h = ap held e in
      record {
        current = λ p has. let old = x.current p has in omega arith;
        known = λ p has. let old = x.known p has in omega arith;
        in_queue = All-weaken s.shared.share_queue (omega arith) x.in_queue;
        holds = holds;
        finds = Finds-weaken s.worker (omega arith) x.finds;
        answers = let old = x.answers in omega arith;
        shares = let old = x.shares in omega arith;
      }

  pub ControlStep-Sound :
      (s t : AppSystem f json c beyond)
      → ControlStep f json c beyond s t
      → Sound f json c beyond s
      → Sound f json c beyond t
  unfolding push stale_event submit_event record_thread_exception
  ControlStep-Sound s t (polls e _) x = x
  ControlStep-Sound s t (fails_to_poll thrown e _) x =
      IsSound-phase x (sym (ap unstored e)) tt x.finds (sym (ap untold e))
        (let h = ap held e in omega arith)
  ControlStep-Sound s t (counts_up next event e small gen _) x =
      counts_up-Sound s next (publishing next event) e small refl refl refl gen x
  ControlStep-Sound s t (stores next event e) x =
      let u = ap unstored e in
      let v = ap untold e in
      let h = ap held e in
      let is_next : next.generation ≡ s.shared.work_generation =
        subst (λ k. Holds k s.shared.work_generation) e x.holds in
      record {
        current = λ p has.
            let same = ap PublishedWork.generation (some-injective next p has) in omega arith;
        known = x.known;
        in_queue = x.in_queue;
        holds = tt;
        finds = x.finds;
        answers = let old = x.answers in omega arith;
        shares = let old = x.shares in omega arith;
      }
  ControlStep-Sound s t (tells_work event e) x =
      IsSound-event (work_update event) refl refl x (sym (ap unstored e)) tt x.finds
        (sym (ap untold e)) (let h = ap held e in omega arith)
  ControlStep-Sound s t (fails_to_publish thrown e _) x =
      IsSound-phase x (sym (ap unstored e)) tt x.finds (sym (ap untold e))
        (let h = ap held e in omega arith)
  ControlStep-Sound s t (announces e) x = announces-Sound s x
  ControlStep-Sound s t (pops q rest e first) x =
      pops-IsSound s (popped q) q rest e first refl refl refl (λ le. tt) x
  ControlStep-Sound s t (finds_stale q e _) x =
      IsSound-phase x (sym (ap unstored e)) tt x.finds (sym (ap untold e))
        (let h = ap held e in omega arith)
  ControlStep-Sound s t (discards q current_generation e) x =
      let n = total-append submits_of s.shared.events (stale_event q current_generation ∷ []) in
      let m = total-append discards_of s.shared.events (stale_event q current_generation ∷ []) in
      let v = ap untold e in
      let h = ap held e in
      IsSound-keep s.printed s.lost _ s.shared.counters s.shared.startup_announced
        s.shared.first_error x (sym (ap unstored e)) tt x.finds (let old = x.answers in omega arith)
        (let old = x.shares in omega arith)
  ControlStep-Sound s t (submits rounds q answer next e _ _) x =
      IsSound-phase x (sym (ap unstored e)) tt x.finds (sym (ap untold e))
        (let h = ap held e in omega arith)
  ControlStep-Sound s t (fails_to_submit rounds q thrown e _ _) x =
      IsSound-phase x (sym (ap unstored e)) tt x.finds (sym (ap untold e))
        (let h = ap held e in omega arith)
  ControlStep-Sound s t (counts_answer q answer e) x =
      let (sum, kept) = count_answer-accepted answer.accepted s.shared.counters in
      let v = ap untold e in
      let h = ap held e in
      IsSound-keep s.printed s.lost s.shared.events _ s.shared.startup_announced
        s.shared.first_error x (sym (ap unstored e)) tt x.finds (let old = x.answers in omega arith)
        (let old = x.shares in omega arith)
  ControlStep-Sound s t (tells_answer q answer e) x =
      let n = total-append submits_of s.shared.events (submit_event q answer ∷ []) in
      let m = total-append discards_of s.shared.events (submit_event q answer ∷ []) in
      let v = ap untold e in
      let h = ap held e in
      IsSound-keep s.printed s.lost _ s.shared.counters s.shared.startup_announced
        s.shared.first_error x (sym (ap unstored e)) tt x.finds (let old = x.answers in omega arith)
        (let old = x.shares in omega arith)
  ControlStep-Sound s t (waits q rest e first) x =
      pops-IsSound s (waited q) q rest e first refl refl refl (λ le. le) x
  ControlStep-Sound s t (puts_back q e _) x =
      let n = length-append s.shared.share_queue (q ∷ []) in
      let not_later : q.candidate.generation ≤ s.shared.work_generation =
        subst (λ k. Holds k s.shared.work_generation) e x.holds in
      let u = ap unstored e in
      let v = ap untold e in
      let h = ap held e in
      record {
        current = λ p has. let old = x.current p has in omega arith;
        known = x.known;
        in_queue = All-append _ s.shared.share_queue (q ∷ []) x.in_queue (not_later, tt);
        holds = tt;
        finds = x.finds;
        answers = let old = x.answers in omega arith;
        shares = let old = x.shares in omega arith;
      }
  ControlStep-Sound s t (drops q e _) x =
      IsSound-phase x (sym (ap unstored e)) tt x.finds (sym (ap untold e))
        (let h = ap held e in omega arith)
  ControlStep-Sound s t (stops e _) x =
      IsSound-phase x (sym (ap unstored e)) tt x.finds (sym (ap untold e))
        (let h = ap held e in omega arith)
  ControlStep-Sound s t (records thrown e) x =
      let v = ap untold e in
      let h = ap held e in
      IsSound-keep s.printed s.lost s.shared.events s.shared.counters s.shared.startup_announced _ x
        (sym (ap unstored e)) tt x.finds (let old = x.answers in omega arith)
        (let old = x.shares in omega arith)
  ControlStep-Sound s t (tells_error thrown e) x =
      IsSound-event (error _) refl refl x (sym (ap unstored e)) tt x.finds (sym (ap untold e))
        (let h = ap held e in omega arith)
  ControlStep-Sound s t (exits e) x =
      IsSound-event (thread_exited _) refl refl x (sym (ap unstored e)) tt x.finds
        (sym (ap untold e)) (let h = ap held e in omega arith)
