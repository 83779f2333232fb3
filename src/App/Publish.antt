-- ===== src/App/Publish.antt =====
-- src/main.cpp: `publish_latest_work`.
use btccpu.Prelude.{
  ℕ, ◌≡◌, ◌⊎◌, inl, inr, refl, sym, ap, ◌∙◌, List, Option, Option-cases, none, some, Result, ok,
  ◌>>=◌, >>=-eq-ok, ok-injective,
}
use btccpu.Hex.{u32_from_hex_be}
use btccpu.Job.{SubscriptionContext, MiningJob}
use btccpu.WorkState.{make_work_state}
use btccpu.Target.{FloatingPoint, expand_compact_target, share_target_from_difficulty}
use btccpu.Scan.{increment}
use btccpu.Json.{Json}
use btccpu.Connection.{Connection}
use btccpu.Client.{Client}
use btccpu.App.{PublishedWork, work_update, Shared, push_event}
use btccpu.App.Control.{publish_latest_work}

module _ (f : FloatingPoint) (json : Json f.Double) (c : Connection) (beyond : List ℕ) where
  -- The client's job was published for its subscription and its difficulty, as the next generation.
  pub record IsPublished (client : Client f json c) (shared after : Shared f.Double) : Type 0 where
    pub subscription : SubscriptionContext
    pub job : MiningJob
    pub published : PublishedWork f.Double
    pub nbits : ℕ
    pub subscribed : client.subscription ≡ some subscription
    pub notified : client.current_job ≡ some job
    pub builds : make_work_state beyond job subscription 0 ≡ ok published.work
    pub reads : u32_from_hex_be job.nbits ≡ ok nbits
    pub network : published.network_target ≡ expand_compact_target nbits
    pub share : share_target_from_difficulty f client.difficulty ≡ ok published.share_target
    pub difficulty : published.share_difficulty ≡ client.difficulty
    pub next : published.generation ≡ increment shared.work_generation
    pub changes :
        after
        ≡ push_event
            (work_update (record {
              job_id = job.job_id;
              ntime_hex = job.ntime;
              clean_jobs = job.clean_jobs;
              difficulty = client.difficulty;
              generation = published.generation;
              raw_notify = client.last_raw_notify;
              parsed_summary = client.last_parsed_summary;
            }))
            (record shared { work_generation = published.generation; published = some published })

  -- What is done for a subscription and a job.
  abbrev publish :
      SubscriptionContext → MiningJob → Client f json c → Shared f.Double → Result (Shared f.Double)
  publish sub job client shared = do
    work ← make_work_state beyond job sub 0
    nbits ← u32_from_hex_be job.nbits
    share_target ← share_target_from_difficulty f client.difficulty
    let generation = increment shared.work_generation
    ok (
        push_event
          (work_update (record {
            job_id = job.job_id;
            ntime_hex = job.ntime;
            clean_jobs = job.clean_jobs;
            difficulty = client.difficulty;
            generation = generation;
            raw_notify = client.last_raw_notify;
            parsed_summary = client.last_parsed_summary;
          }))
          (record shared {
            work_generation = generation;
            published = some (record {
              work = work;
              network_target = expand_compact_target nbits;
              share_target = share_target;
              generation = generation;
              share_difficulty = client.difficulty;
            });
          }))

  -- By the options.
  abbrev publish_of :
      Option SubscriptionContext
      → Option MiningJob
      → Client f json c
      → Shared f.Double
      → Result (Shared f.Double)
  publish_of subscription job client shared = elim subscription [
    | none ↦ ok shared
    | some sub ↦ elim job [ none ↦ ok shared | some j ↦ publish sub j client shared ]
  ]

  by_options :
      (client : Client f json c) (shared : Shared f.Double)
      → publish_latest_work f json c beyond client shared
        ≡ publish_of client.subscription client.current_job client shared
  unfolding publish_latest_work
  by_options client shared = refl

  publish_latest_work_lem :
      (client : Client f json c) (shared : Shared f.Double)
      (subscription : Option SubscriptionContext) (job : Option MiningJob)
      → client.subscription ≡ subscription
      → client.current_job ≡ job
      → publish_latest_work f json c beyond client shared
        ≡ publish_of subscription job client shared
  unfolding publish_latest_work
  publish_latest_work_lem client shared subscription job e e2 =
      by_options client shared
      ∙ ap (λ (o : Option SubscriptionContext). publish_of o client.current_job client shared) e
      ∙ ap (λ (o : Option MiningJob). publish_of subscription o client shared) e2

  -- When publish_latest_work returns, it has published the client's job, built for the client's
  -- subscription, with the targets of the job's bits and of the client's difficulty, under the next
  -- generation, which it makes the current one, with an event; or the client has no subscription or no
  -- job, and nothing has changed.
  pub publish_latest_work-IsPublished :
      (client : Client f json c) (shared after : Shared f.Double)
      → publish_latest_work f json c beyond client shared ≡ ok after
      → (((client.subscription ≡ none) ⊎ (client.current_job ≡ none)) × (after ≡ shared))
        ⊎ IsPublished client shared after
  unfolding publish_latest_work
  publish_latest_work-IsPublished client shared after h = elim (Option-cases client.subscription) [
    | inl e ↦ inl (
      inl e,
      sym (
          ok-injective
            (sym (publish_latest_work_lem client shared none client.current_job e refl) ∙ h)),
    )
    | inr (sub, e) ↦ elim (Option-cases client.current_job) [
      | inl e2 ↦ inl (
        inr e2,
        sym (ok-injective (sym (publish_latest_work_lem client shared (some sub) none e e2) ∙ h)),
      )
      | inr (job, e2) ↦
          let (work, builds, rest) =
            >>=-eq-ok (make_work_state beyond job sub 0) _
              (sym (publish_latest_work_lem client shared (some sub) (some job) e e2) ∙ h) in
          let (nbits, reads, rest2) = >>=-eq-ok (u32_from_hex_be job.nbits) _ rest in
          let (share_target, targets, made) =
            >>=-eq-ok (share_target_from_difficulty f client.difficulty) _ rest2 in
          inr (record {
            subscription = sub;
            job = job;
            published = record {
              work = work;
              network_target = expand_compact_target nbits;
              share_target = share_target;
              generation = increment shared.work_generation;
              share_difficulty = client.difficulty;
            };
            nbits = nbits;
            subscribed = e;
            notified = e2;
            builds = builds;
            reads = reads;
            network = refl;
            share = targets;
            difficulty = refl;
            next = refl;
            changes = sym (ok-injective made);
          })
    ]
  ]
