-- ===== src/App/Drain/Rounds.antt =====
-- src/main.cpp: a pass through the loop of `drain_share_queue`.
use btccpu.Prelude.{
  ℕ, suc, ◌≡◌, ◌≢◌, ◌⊎◌, inl, inr, refl, sym, ap, ◌∙◌, subst, Bool, true, List, [], ◌∷◌, ◌++◌,
  Option, none, some, Bool-cases, Option-cases, Result-cases, ◌==◌, ==_iff, Result, Error, ok, err,
}
use btccpu.Target.{FloatingPoint}
use btccpu.Json.{Json}
use btccpu.Connection.{Connection}
use btccpu.Client.{SubmitShareResult, Client, submit_share}
use btccpu.App.{QueuedShare, Counters, AppEvent, try_pop, Shared, push_event}
use btccpu.App.Control.{
  count_answer, stale_event, submit_event, DrainRound, emptied, dealt, threw, waits, drain_share,
  drain_round, drain_loop,
}

-- The counters behind the pool's answers.
abbrev pub tally : List SubmitShareResult → Counters → Counters
tally [] counters = counters
tally (answer ∷ answers) counters = tally answers (count_answer answer.accepted counters)

pub List-cases : {A : Type 0} (l : List A) → (l ≡ []) ⊎ ((a : A) × (rest : List A) × (l ≡ a ∷ rest))
List-cases [] = inl refl
List-cases (a ∷ rest) = inr (a, rest, refl)

module _ (f : FloatingPoint) (json : Json f.Double) (c : Connection) where
  -- What becomes of shares when a generation is current, and of the client: a share of another
  -- generation is discarded with an event; a share of this one is submitted by the client as it is
  -- then, `submit_share` returns the next answer, and there is an event with it.
  abbrev pub Settles :
      ℕ
      → ℕ
      → Client f json c
      → List QueuedShare
      → List SubmitShareResult
      → List (AppEvent f.Double)
      → Client f json c
      → Type 0
  Settles rounds generation client [] answers events end =
      (answers ≡ []) × (events ≡ []) × (end ≡ client)
  Settles rounds generation client (q ∷ queue) answers events end =
      ((later : List (AppEvent f.Double)) × (q.candidate.generation ≢ generation)
        × (events ≡ stale_event q generation ∷ later)
        × Settles rounds generation client queue answers later end)
      ⊎ ((next : Client f json c) × (answer : SubmitShareResult) × (others : List SubmitShareResult)
          × (later : List (AppEvent f.Double)) × (q.candidate.generation ≡ generation)
          × (submit_share f json c rounds q.submission client ≡ some (ok (answer, next)))
          × (answers ≡ answer ∷ others)
          × (events ≡ submit_event q answer ∷ later)
          × Settles rounds generation next queue others later end)

  -- The queue was dealt with.
  abbrev pub IsDrained :
      ℕ
      → Client f json c
      → List QueuedShare
      → Shared f.Double
      → Client f json c
      → Shared f.Double
      → Type 0
  IsDrained rounds client queue shared end after =
      (answers : List SubmitShareResult) × (events : List (AppEvent f.Double)) × Settles rounds
        shared.work_generation client queue answers events end
      × (after ≡ record shared {
        share_queue = [];
        events = shared.events ++ events;
        counters = tally answers shared.counters;
      })

  -- A share that is dealt with: it is stale, or it was answered.
  abbrev pub IsDealt :
      ℕ → QueuedShare → Client f json c → Shared f.Double → DrainRound f json c → Type 0
  IsDealt rounds q client shared emptied = ⊥
  IsDealt rounds q client shared (dealt next after) =
      ((q.candidate.generation ≢ shared.work_generation)
        × (after ≡ push_event (stale_event q shared.work_generation) shared)
        × (next ≡ client))
      ⊎ ((answer : SubmitShareResult) × (q.candidate.generation ≡ shared.work_generation)
          × (after
              ≡ push_event (submit_event q answer)
                  (record shared { counters = count_answer answer.accepted shared.counters }))
          × (submit_share f json c rounds q.submission client ≡ some (ok (answer, next))))
  IsDealt rounds q client shared (threw e after) = after ≡ shared
  IsDealt rounds q client shared (waits after) =
      submit_share f json c rounds q.submission client ≡ none

  pub drain_share-IsDealt :
      (rounds : ℕ) (q : QueuedShare) (client : Client f json c) (shared : Shared f.Double)
      → IsDealt rounds q client shared (drain_share f json c rounds q client shared)
  unfolding drain_share
  drain_share-IsDealt rounds q client shared =
      elim (Bool-cases (q.candidate.generation == shared.work_generation)) [
        | inl e ↦
            let current : q.candidate.generation ≡ shared.work_generation =
              (==_iff q.candidate.generation shared.work_generation).0 e in
            elim (Option-cases (submit_share f json c rounds q.submission client)) [
              | inl still ↦ rw (e, still, drain_share) still
              | inr (r, is_r) ↦ elim (Result-cases r) [
                | inl (thrown, is_thrown) ↦ rw (e, is_r, is_thrown, drain_share) refl
                | inr ((answer, next), is_answer) ↦
                    let submitted : submit_share f json c rounds q.submission client
                        ≡ some (ok (answer, next)) =
                      is_r ∙ ap (λ r. let o = some r in o) is_answer in
                    rw (e, is_r, is_answer, drain_share) (inr (answer, current, refl, submitted))
              ]
            ]
        | inr e ↦
            let old : q.candidate.generation ≢ shared.work_generation =
              λ same. let t = (==_iff q.candidate.generation shared.work_generation).1 same in cc in
            rw (e, drain_share) (inl (old, refl, refl))
      ]

  pub DrainRound-cases :
      (r : DrainRound f json c)
      → (r ≡ emptied)
        ⊎ ((next : Client f json c) × (after : Shared f.Double) × (r ≡ dealt next after))
        ⊎ ((e : Error) × (after : Shared f.Double) × (r ≡ threw e after))
        ⊎ ((after : Shared f.Double) × (r ≡ waits after))
  DrainRound-cases emptied = inl refl
  DrainRound-cases (dealt next after) = inr (inl (next, after, refl))
  DrainRound-cases (threw e after) = inr (inr (inl (e, after, refl)))
  DrainRound-cases (waits after) = inr (inr (inr (after, refl)))

  pub drain_round-empty :
      (rounds : ℕ) (client : Client f json c) (shared : Shared f.Double)
      → shared.share_queue ≡ []
      → drain_round f json c rounds client shared ≡ emptied
  unfolding drain_round try_pop
  drain_round-empty rounds client shared e = rw (e, drain_round) refl

  pub drain_round-share :
      (rounds : ℕ) (client : Client f json c) (shared : Shared f.Double) (q : QueuedShare)
      (rest : List QueuedShare)
      → shared.share_queue ≡ q ∷ rest
      → drain_round f json c rounds client shared
        ≡ drain_share f json c rounds q client (record shared { share_queue = rest })
  unfolding drain_round try_pop
  drain_round-share rounds client shared q rest e =
      ap
        (λ (l : List QueuedShare).
          elim (try_pop l)
            as (λ (o : Option (QueuedShare × List QueuedShare)). DrainRound f json c) [
              | none ↦ emptied
              | some (queued, others) ↦
                  drain_share f json c rounds queued client (record shared { share_queue = others })
            ])
        e

  -- A pass that is not at the end of the queue deals with the first share.
  pub drain_round-IsDealt :
      (rounds : ℕ) (client : Client f json c) (shared : Shared f.Double) (r : DrainRound f json c)
      → drain_round f json c rounds client shared ≡ r
      → (r ≡ emptied)
        ⊎ ((q : QueuedShare) × (rest : List QueuedShare) × (shared.share_queue ≡ q ∷ rest)
            × IsDealt rounds q client (record shared { share_queue = rest }) r)
  drain_round-IsDealt rounds client shared r h = elim (List-cases shared.share_queue) [
    | inl e ↦ inl (sym h ∙ drain_round-empty rounds client shared e)
    | inr (q, rest, e) ↦
        let popped : Shared f.Double = record shared { share_queue = rest } in
        inr (
          q,
          rest,
          e,
          subst (IsDealt rounds q client popped)
              (sym (drain_round-share rounds client shared q rest e) ∙ h)
              (drain_share-IsDealt rounds q client popped),
        )
  ]

  -- What the loop comes to, by its first pass.
  abbrev pub LoopOutcome : Type 0
  LoopOutcome = Shared f.Double × Option (Result (Bool × Client f json c))

  pub drain_loop-emptied :
      (rounds shares : ℕ) (did_work : Bool) (client : Client f json c) (shared : Shared f.Double)
      → drain_round f json c rounds client shared ≡ emptied
      → drain_loop f json c rounds (suc shares) did_work client shared
        ≡ (shared, some (ok (did_work, client)))
  unfolding drain_loop
  drain_loop-emptied rounds shares did_work client shared e = rw (e, drain_loop) refl

  pub drain_loop-dealt :
      (rounds shares : ℕ) (did_work : Bool) (client next : Client f json c)
      (shared after : Shared f.Double)
      → drain_round f json c rounds client shared ≡ dealt next after
      → drain_loop f json c rounds (suc shares) did_work client shared
        ≡ drain_loop f json c rounds shares true next after
  unfolding drain_loop
  drain_loop-dealt rounds shares did_work client next shared after e = rw (e, drain_loop) refl

  pub drain_loop-threw :
      (rounds shares : ℕ) (did_work : Bool) (client : Client f json c)
      (shared after : Shared f.Double) (thrown : Error)
      → drain_round f json c rounds client shared ≡ threw thrown after
      → drain_loop f json c rounds (suc shares) did_work client shared ≡ (after, some (err thrown))
  unfolding drain_loop
  drain_loop-threw rounds shares did_work client shared after thrown e = rw (e, drain_loop) refl

  pub drain_loop-waits :
      (rounds shares : ℕ) (did_work : Bool) (client : Client f json c)
      (shared after : Shared f.Double)
      → drain_round f json c rounds client shared ≡ waits after
      → drain_loop f json c rounds (suc shares) did_work client shared ≡ (after, none)
  unfolding drain_loop
  drain_loop-waits rounds shares did_work client shared after e = rw (e, drain_loop) refl

  abbrev pub outcome_of : LoopOutcome → Option (Result (Bool × Client f json c))
  outcome_of o = o.1
