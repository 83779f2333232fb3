-- ===== src/Client/Ready.antt =====
-- src/stratum_client/stratum_client.cpp: `run_until_ready` as the pool's session.
use btccpu.Prelude.{
  ℕ, zero, suc, ◌≡◌, ◌≢◌, none, Option-cases, refl, sym, ap, subst, ◌∙◌, true, List, [], ◌∷◌, some,
  Bool-cases, Result-cases, inl, inr, is_nil, if◌then◌else◌, ok, err, ok-injective,
}
use mathlib.Core.Option.{some-injective}
use btccpu.Target.{FloatingPoint}
use btccpu.Json.{Json}
use btccpu.Connection.{Connection, IsConnection}
use btccpu.Client.{Client, handle_message, read_line, ready, run_until_ready}
use btccpu.Client.Lines.{pending, read_line-IsRead, receive-pending}
use btccpu.Client.Session.{Spells, session, deliver_line, replay, session-receive}
use btccpu.Client.Answers.{session-IsRead}

module _ (f : FloatingPoint) (json : Json f.Double) (c : Connection)
    (to_come : c.Socket → List ℕ) where
  ready-has :
      (client : Client f json c)
      → ready f json c client ≡ true
      → (client.subscription ≢ none) × (client.current_job ≢ none)
  unfolding ready
  ready-has client h = elim (Option-cases client.subscription) [
    | inl e ↦ let k = rw e at h in cc
    | inr (sub, e) ↦ elim (Option-cases client.current_job) [
      | inl g ↦ let k = rw (e, g) at h in cc
      | inr (job, g) ↦ (λ no. let k = sym e ∙ no in cc, λ no. let k = sym g ∙ no in cc)
    ]
  ]

  -- When run_until_ready returns, the client has a subscription and a job, and they and the difficulty
  -- are what the lines that it read have told, in order.
  pub run_until_ready-replay :
      (rounds : ℕ) (client end : Client f json c)
      → IsConnection c to_come
      → run_until_ready f json c rounds client ≡ some (ok end)
      → (end.subscription ≢ none)
        × (end.current_job ≢ none)
        × (lines : List (List ℕ)) × Spells lines
            (pending f json c to_come client)
            (pending f json c to_come end)
        × (session f json c end ≡ replay f json c lines (session f json c client))
  unfolding run_until_ready
  run_until_ready-replay zero client end law h = cc
  run_until_ready-replay (suc rounds) client end law h = elim (Bool-cases (ready f json c client)) [
    | inl e ↦
        let now : run_until_ready f json c (suc rounds) client ≡ some (ok client) =
          rw (e, run_until_ready) refl in
        let same : client ≡ end = ok-injective (some-injective _ _ (sym now ∙ h)) in
        (
          subst (λ (k : Client f json c). k.subscription ≢ none) same (ready-has client e).0,
          subst (λ (k : Client f json c). k.current_job ≢ none) same (ready-has client e).1,
          [],
          ap (pending f json c to_come) same,
          sym (ap (session f json c) same),
        )
    | inr e ↦ elim (Result-cases (read_line f json c client)) [
      | inl (thrown, throws) ↦
          let now : run_until_ready f json c (suc rounds) client ≡ some (err thrown) =
            rw (e, throws, run_until_ready) refl in
          cc
      | inr ((line, read), reads) ↦
          let x = read_line-IsRead f json c to_come client read line law reads in
          let next = if is_nil line then read else (handle_message f json c line read).1 in
          let now : run_until_ready f json c (suc rounds) client
              ≡ run_until_ready f json c rounds next =
            rw (e, reads, run_until_ready) refl in
          let (has_subscription, has_job, lines, spells, told) =
            run_until_ready-replay rounds next end law (sym now ∙ h) in
          (
            has_subscription,
            has_job,
            line ∷ lines,
            (
              x.raw,
              pending f json c to_come read,
              x.no_newline,
              x.stripped,
              x.splits,
              subst (λ t. Spells lines t (pending f json c to_come end))
                  (receive-pending f json c to_come line read) spells,
            ),
            told
                ∙ ap (replay f json c lines) (
                    session-receive f json c line read
                    ∙ ap (deliver_line f json c line)
                        (session-IsRead f json c to_come client read line x)),
          )
    ]
  ]
