-- ===== src/App/Drain.antt =====
-- src/main.cpp: `drain_share_queue`.
pub mod Rounds
use mathlib.Core.Option.{some-injective}
use btccpu.Prelude.{
  ok-injective, ℕ, ◌≤◌, ◌<◌, zero, suc, ◌≡◌, ◌≢◌, ◌⊎◌, inl, inr, refl, sym, ap, ◌∙◌, subst, Bool,
  true, false, List, [], ◌∷◌, ◌++◌, append_assoc, append-nil, Option, none, some, Bool-cases,
  Option-cases, Result-cases, ◌==◌, ==_iff, length, Result, Error, ok, err, arith,
}
use btccpu.Target.{FloatingPoint}
use btccpu.Json.{Json}
use btccpu.Connection.{Connection, IsConnection}
use btccpu.Client.Lines.{pending, submit_share-ends}
use btccpu.Client.Answers.{submit_share-pending}
use btccpu.Client.{SubmitShareResult, Client, submit_share}
use btccpu.App.{QueuedShare, Counters, AppEvent, push, try_pop, Shared, push_event}
use btccpu.App.Control.{
  count_answer, stale_event, submit_event, DrainRound, emptied, dealt, threw, waits, drain_share,
  drain_round, drain_loop, drain_share_queue,
}
use btccpu.App.Drain.Rounds.{
  tally, Settles, List-cases, IsDrained, IsDealt, drain_share-IsDealt, DrainRound-cases,
  drain_round-empty, drain_round-share, drain_round-IsDealt, LoopOutcome, drain_loop-emptied,
  drain_loop-dealt, drain_loop-threw, drain_loop-waits, outcome_of,
}

module _ (f : FloatingPoint) (json : Json f.Double) (c : Connection) where
  -- The first share, before the others.
  IsDrained-dealt :
      (rounds : ℕ) (client : Client f json c) (q : QueuedShare) (rest : List QueuedShare)
      (shared after mid : Shared f.Double) (next end : Client f json c)
      → IsDealt f json c rounds q client (record shared { share_queue = rest }) (dealt next mid)
      → IsDrained f json c rounds next mid.share_queue mid end after
      → IsDrained f json c rounds client (q ∷ rest) shared end after
  unfolding push
  IsDrained-dealt rounds client q rest shared after mid next end (inl (old, is_mid, same)) h =
      let event = stale_event q shared.work_generation in
      let (answers, events, settles, e) =
        subst
          (λ (k : Client f json c).
            IsDrained f json c rounds k
              (push_event event (record shared { share_queue = rest })).share_queue
              (push_event event (record shared { share_queue = rest })) end after)
          same
          (subst (λ (m : Shared f.Double). IsDrained f json c rounds next m.share_queue m end after)
            is_mid h) in
      (
        answers,
        event ∷ events,
        inl (events, old, refl, settles),
        e
            ∙ ap
                (λ (l : List (AppEvent f.Double)). record shared {
                  share_queue = [];
                  events = l;
                  counters = tally answers shared.counters;
                })
                (append_assoc shared.events (event ∷ []) events),
      )
  IsDrained-dealt rounds client q rest shared after mid next end
        (inr (answer, current, is_mid, submits)) h =
      let event = submit_event q answer in
      let (answers, events, settles, e) =
        subst (λ (m : Shared f.Double). IsDrained f json c rounds next m.share_queue m end after)
          is_mid h in
      (
        answer ∷ answers,
        event ∷ events,
        inr (next, answer, answers, events, current, submits, refl, refl, settles),
        e
            ∙ ap
                (λ (l : List (AppEvent f.Double)). record shared {
                  share_queue = [];
                  events = l;
                  counters = tally (answer ∷ answers) shared.counters;
                })
                (append_assoc shared.events (event ∷ []) events),
      )

  drain_loop-IsDrained :
      (rounds shares : ℕ) (did_work d : Bool) (client next : Client f json c)
      (shared after : Shared f.Double)
      → drain_loop f json c rounds shares did_work client shared ≡ (after, some (ok (d, next)))
      → IsDrained f json c rounds client shared.share_queue shared next after
  unfolding drain_loop
  drain_loop-IsDrained rounds zero did_work d client next shared after h =
      let k = ap (outcome_of f json c) h in cc
  drain_loop-IsDrained rounds (suc shares) did_work d client next shared after h =
      elim (List-cases shared.share_queue) [
        | inl e ↦
            (let k =
                sym (
                  drain_loop-emptied f json c rounds shares did_work client shared
                    (drain_round-empty f json c rounds client shared e))
                ∙ h in
              let same : shared ≡ after = ap (λ (o : LoopOutcome f json c). o.0) k in
              let returned : next ≡ client = sym (
                ap (λ (q : Bool × Client f json c). q.1)
                  (ok-injective (some-injective _ _ (ap (outcome_of f json c) k)))) in
              (
                [],
                [],
                subst (λ l. Settles f json c rounds shared.work_generation client l [] [] next)
                    (sym e) (refl, refl, returned),
                sym same
                    ∙ ap
                        (λ (l : List QueuedShare).
                          let t : Shared f.Double = record shared { share_queue = l } in t)
                        e
                    ∙ ap
                        (λ (l : List (AppEvent f.Double)).
                          let t : Shared f.Double = record shared {
                            share_queue = [];
                            events = l;
                          } in
                          t)
                        (sym (append-nil shared.events)),
              ))
        | inr (q, rest, e) ↦
            let round = drain_round-share f json c rounds client shared q rest e in
            let popped : Shared f.Double = record shared { share_queue = rest } in
            elim (DrainRound-cases f json c (drain_share f json c rounds q client popped)) [
              | inl is_round ↦ absurd (
                  subst (IsDealt f json c rounds q client popped) is_round
                    (drain_share-IsDealt f json c rounds q client popped))
              | inr (inl (next2, mid, is_round)) ↦
                  subst (λ l. IsDrained f json c rounds client l shared next after) (sym e)
                    (IsDrained-dealt rounds client q rest shared after mid next2 next
                      (subst (IsDealt f json c rounds q client popped) is_round
                        (drain_share-IsDealt f json c rounds q client popped))
                      (drain_loop-IsDrained rounds shares true d next2 next mid after (
                        sym (
                          drain_loop-dealt f json c rounds shares did_work client next2 shared mid
                            (round ∙ is_round))
                        ∙ h)))
              | inr (inr (inl (thrown, mid, is_round))) ↦
                  let k =
                    sym (
                      drain_loop-threw f json c rounds shares did_work client shared mid thrown
                        (round ∙ is_round))
                    ∙ h in
                  let o = ap (outcome_of f json c) k in cc
              | inr (inr (inr (mid, is_round))) ↦
                  let k =
                    sym (
                      drain_loop-waits f json c rounds shares did_work client shared mid
                        (round ∙ is_round))
                    ∙ h in
                  let o = ap (outcome_of f json c) k in cc
            ]
      ]

  -- Dealing with a share leaves the others in the queue.
  dealt-share_queue :
      (rounds : ℕ) (q : QueuedShare) (client next : Client f json c) (popped mid : Shared f.Double)
      → IsDealt f json c rounds q client popped (dealt next mid)
      → mid.share_queue ≡ popped.share_queue
  dealt-share_queue rounds q client next popped mid (inl (old, e, _)) = ap Shared.share_queue e
  dealt-share_queue rounds q client next popped mid (inr (answer, current, e, _)) =
      ap Shared.share_queue e

  -- Nor does it leave the client more to read.
  dealt-pending :
      (to_come : c.Socket → List ℕ) (rounds : ℕ) (q : QueuedShare) (client next : Client f json c)
      (popped mid : Shared f.Double)
      → IsConnection c to_come
      → IsDealt f json c rounds q client popped (dealt next mid)
      → length (pending f json c to_come next) ≤ length (pending f json c to_come client)
  dealt-pending to_come rounds q client next popped mid law (inl (_, _, same)) =
      let e = ap (λ (k : Client f json c). length (pending f json c to_come k)) same in omega arith
  dealt-pending to_come rounds q client next popped mid law (inr (answer, _, _, submits)) =
      submit_share-pending f json c to_come rounds q.submission client next answer law submits

  drain_loop-ends :
      (to_come : c.Socket → List ℕ) (rounds shares : ℕ) (did_work : Bool) (client : Client f json c)
      (shared : Shared f.Double)
      → IsConnection c to_come
      → length (pending f json c to_come client) < rounds
      → length shared.share_queue < shares
      → (r : Result (Bool × Client f json c)) × ((drain_loop f json c rounds shares did_work client
            shared).1
          ≡ some r)
  drain_loop-ends to_come rounds zero did_work client shared law enough few = absurd (omega arith)
  drain_loop-ends to_come rounds (suc shares) did_work client shared law enough few =
      elim (List-cases shared.share_queue) [
        | inl e ↦ (
          _,
          ap (outcome_of f json c) (
              drain_loop-emptied f json c rounds shares did_work client shared
                (drain_round-empty f json c rounds client shared e)),
        )
        | inr (q, rest, e) ↦
            let round = drain_round-share f json c rounds client shared q rest e in
            let popped : Shared f.Double = record shared { share_queue = rest } in
            let is_dealt = drain_share-IsDealt f json c rounds q client popped in
            elim (DrainRound-cases f json c (drain_share f json c rounds q client popped)) [
              | inl is_round ↦
                  absurd (subst (IsDealt f json c rounds q client popped) is_round is_dealt)
              | inr (inl (next, mid, is_round)) ↦
                  let this = subst (IsDealt f json c rounds q client popped) is_round is_dealt in
                  let left = ap length (dealt-share_queue rounds q client next popped mid this) in
                  let less = dealt-pending to_come rounds q client next popped mid law this in
                  let all = ap length e in
                  let (r, ends) =
                    drain_loop-ends to_come rounds shares true next mid law (omega arith)
                      (omega arith) in
                  (
                    r,
                    ap (outcome_of f json c) (
                          drain_loop-dealt f json c rounds shares did_work client next shared mid
                            (round ∙ is_round))
                        ∙ ends,
                  )
              | inr (inr (inl (thrown, mid, is_round))) ↦ (
                _,
                ap (outcome_of f json c) (
                    drain_loop-threw f json c rounds shares did_work client shared mid thrown
                      (round ∙ is_round)),
              )
              | inr (inr (inr (mid, is_round))) ↦
                  let (r, ends) =
                    submit_share-ends f json c to_come rounds q.submission client law enough in
                  let still = subst (IsDealt f json c rounds q client popped) is_round is_dealt in
                  cc
            ]
      ]

  -- drain_share_queue returns or throws, in as many rounds for each share as there are bytes that the
  -- client has not read yet, and one; and when it returns, the queue is empty, every share of another
  -- generation than the current one was discarded with an event, and for every other one, in order,
  -- `submit_share` was called with its submission on the client as the call before left it, and
  -- returned the answer of its event; the answers were counted, the client is the last call's, and
  -- nothing else has changed.
  pub drain_share_queue-Settles :
      (to_come : c.Socket → List ℕ) (rounds : ℕ) (client : Client f json c)
      (shared : Shared f.Double)
      → IsConnection c to_come
      → length (pending f json c to_come client) < rounds
      → ((r : Result (Bool × Client f json c)) × ((drain_share_queue f json c rounds client
              shared).1
            ≡ some r))
        × ((after : Shared f.Double) (did_work : Bool) (next : Client f json c)
            → drain_share_queue f json c rounds client shared ≡ (after, some (ok (did_work, next)))
            → (answers : List SubmitShareResult) × (events : List (AppEvent f.Double)) × Settles f
                json c rounds shared.work_generation client shared.share_queue answers events next
              × (after ≡ record shared {
                share_queue = [];
                events = shared.events ++ events;
                counters = tally answers shared.counters;
              }))
  unfolding drain_share_queue
  drain_share_queue-Settles to_come rounds client shared law enough = (
    drain_loop-ends to_come rounds (suc (length shared.share_queue)) false client shared law enough
        (omega arith),
    λ after did_work next h.
        drain_loop-IsDrained rounds (suc (length shared.share_queue)) false did_work client next
          shared after h,
  )
