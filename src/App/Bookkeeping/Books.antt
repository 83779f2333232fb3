-- ===== src/App/Bookkeeping/Books.antt =====
-- src/main.cpp: the books over the shared variables, and what they count.
use btccpu.Prelude.{
  Error, ℕ, ◌+◌, ◌%◌, ◌^◌, ◌≤◌, ◌≡◌, refl, Bool, true, false, List, [], ◌∷◌, ◌++◌, All, Option,
  some, length, arith,
}
use btccpu.Target.{FloatingPoint}
use btccpu.Json.{Json}
use btccpu.Connection.{Connection}
use btccpu.App.System.{
  AppSystem, ControlPhase, WorkerPhase, publishing, popped, discarding, answered, counted, waited,
  scanning, found, queued, throwing, recorded, leaving, left,
}
use btccpu.App.{
  push_event, PublishedWork, QueuedShare, Counters, AppEvent, share_submit, stale_share_discarded,
  push, try_pop, Shared,
}
use btccpu.App.Control.{count_answer}

-- The events of submissions, and those of shares that were discarded.
abbrev pub submits_of : {Double : Type 0} → AppEvent Double → ℕ
submits_of (share_submit e) = 1
submits_of _ = 0

abbrev pub discards_of : {Double : Type 0} → AppEvent Double → ℕ
discards_of (stale_share_discarded e) = 1
discards_of _ = 0

abbrev pub total : {A : Type 0} → (A → ℕ) → List A → ℕ
total weigh [] = 0
total weigh (a ∷ l) = weigh a + total weigh l

pub total-append :
    {A : Type 0} (weigh : A → ℕ) (l m : List A)
    → total weigh (l ++ m) ≡ total weigh l + total weigh m
total-append weigh [] m = omega arith
total-append weigh (a ∷ l) m = omega (arith, total-append weigh l m)

pub try_pop-some :
    {A : Type 0} (queue : List A) (item : A) (rest : List A)
    → try_pop queue ≡ some (item, rest)
    → queue ≡ item ∷ rest
unfolding try_pop
try_pop-some [] item rest h = cc
try_pop-some (a ∷ queue) item rest h = cc

-- No share is of a generation later than this.
abbrev pub NoneLater : ℕ → List QueuedShare → Type 0
NoneLater generation queue = All (λ (q : QueuedShare). q.candidate.generation ≤ generation) queue

pub All-weaken :
    (queue : List QueuedShare) {g h : ℕ} → g ≤ h → NoneLater g queue → NoneLater h queue
All-weaken [] le all = tt
All-weaken (q ∷ queue) le (first, others) = (omega arith, All-weaken queue le others)

pub count_answer-accepted :
    (accepted : Bool) (counters : Counters)
    → (((count_answer accepted counters).shares_accepted
            + (count_answer accepted counters).shares_rejected)
          % 2 ^ 64
        ≡ (counters.shares_accepted + counters.shares_rejected + 1) % 2 ^ 64)
      × ((count_answer accepted counters).shares_found ≡ counters.shares_found)
unfolding count_answer
count_answer-accepted true counters = (omega arith, refl)
count_answer-accepted false counters = (omega arith, refl)

module _ {Double : Type 0} where
  -- Whether a generation is counted up whose work is not kept, whether an answer is counted that is
  -- not told, and whether a share is held that is not dealt with.
  abbrev pub unstored : ControlPhase Double → ℕ
  unstored (publishing next event) = 1
  unstored _ = 0

  abbrev pub untold : ControlPhase Double → ℕ
  untold (counted q answer) = 1
  untold _ = 0

  abbrev pub held : ControlPhase Double → ℕ
  held (popped q) = 1
  held (discarding q current_generation) = 1
  held (answered q answer) = 1
  held (counted q answer) = 1
  held (waited q) = 1
  held _ = 0

  -- Whether a share is counted that is not queued.
  abbrev pub unqueued : WorkerPhase Double → ℕ
  unqueued (found p submission candidate) = 1
  unqueued _ = 0

  -- What a phase holds is of the current generation, or not of a later one.
  abbrev pub Holds : ControlPhase Double → ℕ → Type 0
  Holds (publishing next event) generation = next.generation ≡ generation
  Holds (waited q) generation = q.candidate.generation ≤ generation
  Holds _ generation = Unit

  abbrev pub Finds : WorkerPhase Double → ℕ → Type 0
  Finds (found p submission candidate) generation = candidate.generation ≤ generation
  Finds _ generation = Unit

  pub Finds-weaken : (w : WorkerPhase Double) {g h : ℕ} → g ≤ h → Finds w g → Finds w h
  Finds-weaken scanning le x = tt
  Finds-weaken (found p submission candidate) le x = omega arith
  Finds-weaken (queued p submission candidate) le x = tt
  Finds-weaken (throwing e) le x = tt
  Finds-weaken (recorded e) le x = tt
  Finds-weaken leaving le x = tt
  Finds-weaken left le x = tt

  -- The books are in order: the published generation is the current one, but for a moment the one
  -- before it; no adopted work and no queued share is of a later one; each answer that was counted is
  -- told, or about to be; and each share that was found is submitted, discarded, queued, held, or lost.
  pub record IsSound (control : ControlPhase Double) (worker : WorkerPhase Double)
      (shared : Shared Double) (adopted : Option (PublishedWork Double))
      (printed : List (AppEvent Double)) (lost : ℕ) : Type 0 where
    pub current :
        (p : PublishedWork Double)
        → shared.published ≡ some p
        → p.generation + unstored control ≡ shared.work_generation
    pub known :
        (p : PublishedWork Double) → adopted ≡ some p → p.generation ≤ shared.work_generation
    pub in_queue : NoneLater shared.work_generation shared.share_queue
    pub holds : Holds control shared.work_generation
    pub finds : Finds worker shared.work_generation
    pub answers :
        (shared.counters.shares_accepted + shared.counters.shares_rejected) % 2 ^ 64
        ≡ (total submits_of printed + total submits_of shared.events + untold control) % 2 ^ 64
    pub shares :
        shared.counters.shares_found % 2 ^ 64
        ≡ (total submits_of printed
            + total submits_of shared.events
            + (total discards_of printed + total discards_of shared.events)
            + length shared.share_queue
            + held control
            + unqueued worker
            + lost)
          % 2 ^ 64

  -- A step that leaves the works and the queue as they are.
  pub IsSound-keep :
      {control control' : ControlPhase Double} {worker worker' : WorkerPhase Double}
      {shared : Shared Double} {adopted : Option (PublishedWork Double)}
      {printed : List (AppEvent Double)} {lost : ℕ} (printed' : List (AppEvent Double)) (lost' : ℕ)
      (events : List (AppEvent Double)) (counters : Counters) (startup_announced : Bool)
      (first_error : Option Error)
      → IsSound control worker shared adopted printed lost
      → unstored control' ≡ unstored control
      → Holds control' shared.work_generation
      → Finds worker' shared.work_generation
      → (counters.shares_accepted + counters.shares_rejected) % 2 ^ 64
        ≡ (total submits_of printed' + total submits_of events + untold control') % 2 ^ 64
      → counters.shares_found % 2 ^ 64
        ≡ (total submits_of printed'
            + total submits_of events
            + (total discards_of printed' + total discards_of events)
            + length shared.share_queue
            + held control'
            + unqueued worker'
            + lost')
          % 2 ^ 64
      → IsSound control' worker'
          (record shared {
            events = events;
            counters = counters;
            startup_announced = startup_announced;
            first_error = first_error;
          })
          adopted
          printed'
          lost'
  IsSound-keep printed' lost' events counters startup_announced first_error x kept holds finds
        answers shares =
      record {
        current = λ p e. let old = x.current p e in omega arith;
        known = x.known;
        in_queue = x.in_queue;
        holds = holds;
        finds = finds;
        answers = answers;
        shares = shares;
      }

  -- A phase that holds no share follows one that holds none, and nothing else changes.
  pub IsSound-phase :
      {control control' : ControlPhase Double} {worker worker' : WorkerPhase Double}
      {shared : Shared Double} {adopted : Option (PublishedWork Double)}
      {printed : List (AppEvent Double)} {lost lost' : ℕ}
      → IsSound control worker shared adopted printed lost
      → unstored control' ≡ unstored control
      → Holds control' shared.work_generation
      → Finds worker' shared.work_generation
      → untold control' ≡ untold control
      → held control' + unqueued worker' + lost' ≡ held control + unqueued worker + lost
      → IsSound control' worker' shared adopted printed lost'
  IsSound-phase {shared = shared} {printed = printed} {lost' = lost'} x kept holds finds told same =
      IsSound-keep printed lost' shared.events shared.counters shared.startup_announced
        shared.first_error x kept holds finds (let old = x.answers in omega arith)
        (let old = x.shares in omega arith)

  -- An event that is about no share is pushed.
  pub IsSound-event :
      {control control' : ControlPhase Double} {worker worker' : WorkerPhase Double}
      {shared : Shared Double} {adopted : Option (PublishedWork Double)}
      {printed : List (AppEvent Double)} {lost : ℕ} (event : AppEvent Double)
      → submits_of event ≡ 0
      → discards_of event ≡ 0
      → IsSound control worker shared adopted printed lost
      → unstored control' ≡ unstored control
      → Holds control' shared.work_generation
      → Finds worker' shared.work_generation
      → untold control' ≡ untold control
      → held control' + unqueued worker' ≡ held control + unqueued worker
      → IsSound control' worker' (push_event event shared) adopted printed lost
  unfolding push
  IsSound-event {shared = shared} {printed = printed} {lost = lost} event no_submit no_discard x
        kept holds finds told same =
      let s = total-append submits_of shared.events (event ∷ []) in
      let d = total-append discards_of shared.events (event ∷ []) in
      IsSound-keep printed lost (shared.events ++ (event ∷ [])) shared.counters
        shared.startup_announced shared.first_error x kept holds finds
        (let old = x.answers in omega arith) (let old = x.shares in omega arith)

module _ (f : FloatingPoint) (json : Json f.Double) (c : Connection) (beyond : List ℕ) where
  abbrev pub Sound : AppSystem f json c beyond → Type 0
  Sound s = IsSound s.control s.worker s.shared s.adopted s.printed s.lost
