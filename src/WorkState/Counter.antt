-- ===== src/WorkState/Counter.antt =====
-- src/mining_job/work_state.cpp: the extranonce2 counter, its range and its exhaustion.
use btccpu.Prelude.{
  ℕ, zero, suc, ◌+◌, ◌-◌, ◌*◌, ◌%◌, ◌^◌, ◌≤◌, ◌<◌, ◌≡◌, refl, sym, ap, ap₂, subst, ◌∙◌, ◌≢◌, List,
  ok, err, invalid_argument, overflow_error, arith, ok-injective, >>=-eq-ok, lt→ltb,
}
use btccpu.Hex.Wide.{hex_from_u64_be_injective}
use btccpu.Job.{MiningJob, SubscriptionContext}
use btccpu.Coinbase.{extranonce2_from_counter}
use btccpu.WorkState.{
  PreparedWork, WorkState, max_extranonce2_value, prepare_work, make_work_state,
  work_state_from_prepared, advance_extranonce2,
}
use btccpu.WorkState.Template.{IsPrepared, prepare_work-IsPrepared}
use native.Mathlib.Decide.{dec_le, ℕ_discrete}
use native.Mathlib.Nat.{one-le-pow, pow-le-pow_right}

-- Up to 8 bytes the greatest value is that of as many bits, and more bytes are refused.
pub max_extranonce2_value_small : (n : ℕ) → n ≤ 8 → max_extranonce2_value n ≡ ok (2 ^ (n * 8) - 1)
unfolding max_extranonce2_value
max_extranonce2_value_small zero h = refl
max_extranonce2_value_small (suc n) h = elim (ℕ_discrete (suc n) 8) [
  | yes e ↦ rw e refl
  | no ne ↦ ground arith
]

pub max_extranonce2_value_large : (n : ℕ) → 8 < n → max_extranonce2_value n ≡ err invalid_argument
unfolding max_extranonce2_value
max_extranonce2_value_large n h = rw (lt→ltb 8 n h)

-- A counter that was prepared has as many bits as the extranonce2 has, at most 64.
pub prepared_counter-lt :
    (beyond : List ℕ) (job : MiningJob) (subscription : SubscriptionContext) (counter : ℕ)
    (p : PreparedWork)
    → IsPrepared beyond job subscription counter p
    → (subscription.extranonce2_size ≤ 8) × (counter < 2 ^ (subscription.extranonce2_size * 8))
prepared_counter-lt beyond job subscription counter p x =
    let size = subscription.extranonce2_size in
    elim (dec_le size 8) [
      | yes small ↦
          let most : x.max_value ≡ 2 ^ (size * 8) - 1 =
            ok-injective (sym x.reads_max ∙ max_extranonce2_value_small size small) in
          (small, omega (arith, x.within, one-le-pow (size * 8) 2))
      | no large ↦ cc (x.reads_max, max_extranonce2_value_large size (omega arith))
    ]

-- Prepared works of two counters for one subscription have the same extranonce2 only if the
-- counters are the same.
pub extranonce2_hex_injective :
    (beyond beyond' : List ℕ) (job job' : MiningJob) (subscription : SubscriptionContext) (c c' : ℕ)
    (p p' : PreparedWork)
    → IsPrepared beyond job subscription c p
    → IsPrepared beyond' job' subscription c' p'
    → p.extranonce2_hex ≡ p'.extranonce2_hex
    → c ≡ c'
unfolding extranonce2_from_counter
extranonce2_hex_injective beyond beyond' job job' subscription c c' p p' x x' e =
    let (small, fits) = prepared_counter-lt beyond job subscription c p x in
    let (_, fits') = prepared_counter-lt beyond' job' subscription c' p' x' in
    hex_from_u64_be_injective c c' subscription.extranonce2_size small fits fits'
      (x.counter_text ∙ ap ok e ∙ sym x'.counter_text)

-- Beyond the range nothing is prepared: a size above 8 bytes is an `invalid_argument`, a counter
-- that needs more bits than the extranonce2 has is an `overflow_error`.
pub prepare_work_range :
    (beyond : List ℕ) (job : MiningJob) (subscription : SubscriptionContext) (counter : ℕ)
    → (8 < subscription.extranonce2_size
        → prepare_work beyond job subscription counter ≡ err invalid_argument)
      × (subscription.extranonce2_size ≤ 8
          → 2 ^ (subscription.extranonce2_size * 8) ≤ counter
          → prepare_work beyond job subscription counter ≡ err overflow_error)
unfolding prepare_work
prepare_work_range beyond job subscription counter =
    let size = subscription.extranonce2_size in
    (
      λ large. rw (max_extranonce2_value_large size large),
      λ small high. rw (
        max_extranonce2_value_small size small,
        lt→ltb (2 ^ (size * 8) - 1) counter (omega (arith, high, one-le-pow (size * 8) 2)),
      ),
    )

-- What holds of `work` and of its successor `next`.
abbrev pub Advances : MiningJob → SubscriptionContext → ℕ → WorkState → WorkState → Type 0
Advances job subscription counter work next =
    (next.job ≡ job)
    × (next.subscription ≡ subscription)
    × (next.nonce ≡ 0)
    × (next.extranonce2_counter ≡ (counter + 1) % 2 ^ 64)
    × (next.coinbase.extranonce2_hex ≢ work.coinbase.extranonce2_hex)

module _ (beyond : List ℕ) (job : MiningJob) (subscription : SubscriptionContext) (counter : ℕ)
    (p : PreparedWork) (x : IsPrepared beyond job subscription counter p) where
  Advances-prepared :
      (q : PreparedWork)
      → IsPrepared beyond job subscription ((counter + 1) % 2 ^ 64) q
      → Advances job subscription counter
          (work_state_from_prepared p 0)
          (work_state_from_prepared q 0)
  unfolding work_state_from_prepared
  Advances-prepared q y =
      let (small, fits) = prepared_counter-lt beyond job subscription counter p x in
      let bits =
        pow-le-pow_right (let two : 0 < 2 = omega arith in two)
          (let k : subscription.extranonce2_size * 8 ≤ 64 = omega arith in k) in
      (
        y.keeps_job,
        y.keeps_subscription,
        refl,
        y.keeps_counter,
        λ same. absurd (
            omega (
              arith,
              bits,
              fits,
              extranonce2_hex_injective beyond beyond job job subscription _ counter q p y x
                  (sym y.built.text ∙ same ∙ x.built.text),
            )),
      )

  Advances-work :
      (next : WorkState)
      → advance_extranonce2 beyond (work_state_from_prepared p 0) ≡ ok next
      → Advances job subscription counter (work_state_from_prepared p 0) next
  unfolding advance_extranonce2 work_state_from_prepared
  Advances-work next f =
      let (q, eq, fq) =
        >>=-eq-ok (prepare_work beyond p.job p.subscription ((p.extranonce2_counter + 1) % 2 ^ 64))
          _ f in
      let eq' : prepare_work beyond job subscription ((counter + 1) % 2 ^ 64) ≡ ok q =
        ap₂ (λ j s. prepare_work beyond j s ((counter + 1) % 2 ^ 64)) (sym x.keeps_job)
          (sym x.keeps_subscription)
        ∙ ap (λ (c : ℕ). prepare_work beyond p.job p.subscription ((c + 1) % 2 ^ 64))
            (sym x.keeps_counter)
        ∙ eq in
      subst (Advances job subscription counter (work_state_from_prepared p 0)) (ok-injective fq)
        (Advances-prepared q (prepare_work-IsPrepared beyond job subscription _ q eq'))

-- A work state made for a counter, when it advances, keeps the job and the subscription, starts at
-- nonce 0, counts one up modulo 2 ^ 64, and has another extranonce2 than before.
pub advance_extranonce2-Advances :
    (beyond : List ℕ) (job : MiningJob) (subscription : SubscriptionContext) (counter : ℕ)
    (work next : WorkState)
    → make_work_state beyond job subscription counter ≡ ok work
    → advance_extranonce2 beyond work ≡ ok next
    → Advances job subscription counter work next
unfolding make_work_state
advance_extranonce2-Advances beyond job subscription counter work next e f =
    let (p, ep, fp) = >>=-eq-ok (prepare_work beyond job subscription counter) _ e in
    let x = prepare_work-IsPrepared beyond job subscription counter p ep in
    let same = ok-injective fp in
    subst (λ w. Advances job subscription counter w next) same
      (Advances-work beyond job subscription counter p x next
        (ap (advance_extranonce2 beyond) same ∙ f))
