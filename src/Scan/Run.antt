-- ===== src/Scan/Run.antt =====
-- src/mining_job/scan.cpp: the loop from any state, whatever the other threads do.
use btccpu.Prelude.{
  ℕ, zero, suc, ◌+◌, ◌-◌, ◌%◌, ◌^◌, ◌≤◌, ◌<◌, ◌≡◌, refl, ap, ◌∙◌, subst, Bool, true, false,
  if◌then◌else◌, Bool-cases, inl, inr, arith, List, none, some,
}
use btccpu.Header.{set_header_nonce}
use btccpu.WorkState.{WorkState}
use btccpu.WorkState.Submission.{set_header_nonce_twice}
use btccpu.U256.{U256}
use btccpu.Scan.{
  call_back, ScanStopReason, exhausted, stale, stop_requested, ScanControl, ShareFoundCallback,
  ScanState, Round, next, leave, increment, generation_changed, scan_round, scan_loop,
}
use btccpu.Scan.Nonces.{tell, hash_of, meets, count, report}

-- How a loop of `left` values that began with `before` hashes ends: its reason, the nonces that it
-- examined in full, and its hashes.
abbrev pub Ends : ScanControl → ScanStopReason → ℕ → ℕ → ℕ → ℕ → Type 0
Ends control exhausted left before rounds hashes = (rounds ≡ left) × (hashes ≡ before + rounds)
Ends control stop_requested left before rounds hashes =
    (rounds < left) × (hashes ≡ before + rounds) × (control.stop_token hashes ≡ true)
Ends control stale left before rounds hashes =
    (rounds < left)
    × (hashes ≡ before + rounds + 1)
    × (control.stop_token (before + rounds) ≡ false)
    × (generation_changed control hashes ≡ true)

-- Nothing interrupts the loop at a round that begins with so many hashes.
abbrev pub IsQuiet : ScanControl → ℕ → Type 0
IsQuiet control hashes =
    (control.stop_token hashes ≡ false) × (generation_changed control (hashes + 1) ≡ false)

call_back-tell :
    {S : Type 0} (callback : ShareFoundCallback S) (nonce : ℕ) (hash : List ℕ)
    (meets_network : Bool) (caller : S)
    → call_back callback nonce hash meets_network caller
      ≡ tell callback nonce hash meets_network caller
unfolding call_back
call_back-tell none nonce hash meets_network caller = refl
call_back-tell (some callback) nonce hash meets_network caller = refl

module _ {S : Type 0} (network_target share_target : U256) (control : ScanControl)
    (on_share_found : ShareFoundCallback S) (work : WorkState) where
  -- A state of the loop: the hash of a nonce is that of the work the loop began with, and the
  -- counters have room for the values that are left.
  pub record IsScanning (left : ℕ) (s : ScanState S) : Type 0 where
    pub header :
        (nonce : ℕ)
        → set_header_nonce s.work.header_template nonce
          ≡ set_header_nonce work.header_template nonce
    pub room : s.hashes_done + left < 2 ^ 64
    pub shares_le : s.shares_found ≤ s.hashes_done
    pub blocks_le : s.blocks_found ≤ s.hashes_done

  -- What the loop from `s` did when it ended in `t`: it examined `rounds` nonces, counted those
  -- that meet a target, and reported those that meet the share target.
  pub record IsScanned (left nonce : ℕ) (s t : ScanState S) (reason : ScanStopReason) : Type 0 where
    pub rounds : ℕ
    pub ends : Ends control reason left s.hashes_done rounds t.hashes_done
    pub quiet : (i : ℕ) → i < rounds → IsQuiet control (s.hashes_done + i)
    pub shares : t.shares_found ≡ s.shares_found + count (meets work share_target) rounds nonce
    pub blocks : t.blocks_found ≡ s.blocks_found + count (meets work network_target) rounds nonce
    pub reported :
        t.caller ≡ report work network_target share_target on_share_found rounds nonce s.caller

  -- The state of a round that goes on.
  abbrev Examined : ℕ → ScanState S → ScanState S → Type 0
  Examined nonce s t =
      (t.hashes_done ≡ s.hashes_done + 1)
      × (t.shares_found ≡ s.shares_found + (if meets work share_target nonce then 1 else 0))
      × (t.blocks_found ≡ s.blocks_found + (if meets work network_target nonce then 1 else 0))
      × (t.caller ≡ report work network_target share_target on_share_found 1 nonce s.caller)

  -- What a round is, by what it finds.
  abbrev RoundOf : ℕ → ℕ → ScanState S → Round S → Type 0
  RoundOf left nonce s (next t) =
      IsQuiet control s.hashes_done × Examined nonce s t × IsScanning left t
  RoundOf left nonce s (leave t reason) = IsScanned (suc left) nonce s t reason

  round-cases :
      (left nonce : ℕ) (s : ScanState S)
      → nonce < 2 ^ 32
      → IsScanning (suc left) s
      → RoundOf left nonce s (scan_round network_target share_target control on_share_found nonce s)
  unfolding scan_round
  round-cases left nonce s lt h = elim (Bool-cases (control.stop_token s.hashes_done)) [
    | inl e ↦ rw e (record {
      rounds = 0;
      ends = (omega arith, omega arith, e);
      quiet = λ i l. absurd (omega arith);
      shares = omega arith;
      blocks = omega arith;
      reported = refl;
    })
    | inr e ↦ elim (Bool-cases (generation_changed control (s.hashes_done + 1))) [
      | inl g ↦
          rw (e, small, one_more, g)
            (record {
              rounds = 0;
              ends = (
                omega arith,
                omega arith,
                subst (λ (n : ℕ). control.stop_token n ≡ false)
                    (let z : s.hashes_done ≡ s.hashes_done + 0 = omega arith in z) e,
                g,
              );
              quiet = λ i l. absurd (omega arith);
              shares = omega arith;
              blocks = omega arith;
              reported = refl;
            })
      | inr g ↦
          rw (e, small, h.header nonce, one_more, g)
            (
              (e, g),
              (
                refl,
                counted (meets work share_target nonce) s.shares_found
                    (omega (arith, h.shares_le, h.room)),
                counted (meets work network_target nonce) s.blocks_found
                    (omega (arith, h.blocks_le, h.room)),
                ap (λ c. if meets work share_target nonce then c else s.caller)
                    (call_back-tell on_share_found nonce (hash_of work nonce)
                      (meets work network_target nonce) s.caller),
              ),
              record {
                header = λ n. set_header_nonce_twice work.header_template nonce n;
                room = omega (arith, h.room);
                shares_le = counted_le (meets work share_target nonce) s.shares_found h.shares_le;
                blocks_le = counted_le (meets work network_target nonce) s.blocks_found h.blocks_le;
              },
            )
    ]
  ]
    where
      small : nonce % 2 ^ 32 ≡ nonce
      small = omega arith

      one_more : (s.hashes_done + 1) % 2 ^ 64 ≡ s.hashes_done + 1
      one_more = omega (arith, h.room)

      counted :
          (test : Bool) (n : ℕ)
          → n < 2 ^ 64 - 1
          → (if test then increment n else n) ≡ n + (if test then 1 else 0)
      counted true n l = omega arith
      counted false n l = omega arith

      counted_le :
          (test : Bool) (n : ℕ)
          → n ≤ s.hashes_done
          → (if test then increment n else n) ≤ s.hashes_done + 1
      counted_le true n l = omega (arith, h.room)
      counted_le false n l = omega arith

  Ends-suc :
      (reason : ScanStopReason) (left before rounds hashes : ℕ)
      → Ends control reason left (before + 1) rounds hashes
      → Ends control reason (suc left) before (suc rounds) hashes
  Ends-suc exhausted left before rounds hashes h = (omega arith, omega arith)
  Ends-suc stale left before rounds hashes h = (
    omega arith,
    omega arith,
    subst (λ (n : ℕ). control.stop_token n ≡ false)
        (let e : before + 1 + rounds ≡ before + suc rounds = omega arith in e) h.2,
    h.3,
  )
  Ends-suc stop_requested left before rounds hashes h = (omega arith, omega arith, h.2)

  IsQuiet-suc :
      (before rounds : ℕ)
      → IsQuiet control before
      → ((i : ℕ) → i < rounds → IsQuiet control (before + 1 + i))
      → (i : ℕ) → i < suc rounds
      → IsQuiet control (before + i)
  IsQuiet-suc before rounds first rest zero l =
      subst (IsQuiet control) (let e : before ≡ before + 0 = omega arith in e) first
  IsQuiet-suc before rounds first rest (suc i) l =
      subst (IsQuiet control) (let e : before + 1 + i ≡ before + suc i = omega arith in e)
        (rest i (omega arith))

  -- A round that goes on, and the rounds behind it.
  IsScanned-suc :
      (left nonce : ℕ) (s t u : ScanState S) (reason : ScanStopReason)
      → IsQuiet control s.hashes_done
      → Examined nonce s t
      → IsScanned left (suc nonce) t u reason
      → IsScanned (suc left) nonce s u reason
  IsScanned-suc left nonce s t u reason quiet (hashes, shares, blocks, reported) x = record {
    rounds = suc x.rounds;
    ends =
        Ends-suc reason left s.hashes_done x.rounds u.hashes_done
          (subst (λ (n : ℕ). Ends control reason left n x.rounds u.hashes_done) hashes x.ends);
    quiet =
        IsQuiet-suc s.hashes_done x.rounds quiet
          (subst (λ (n : ℕ). (i : ℕ) → i < x.rounds → IsQuiet control (n + i)) hashes x.quiet);
    shares = omega (arith, x.shares, shares);
    blocks = omega (arith, x.blocks, blocks);
    reported =
        x.reported
        ∙ ap (report work network_target share_target on_share_found x.rounds (suc nonce)) reported;
  }

  -- The loop examines the nonces in order, each once, until something interrupts it or none is
  -- left.
  pub scan_loop-IsScanned :
      (left nonce : ℕ) (s : ScanState S)
      → nonce + left ≤ 2 ^ 32
      → IsScanning left s
      → (let end = scan_loop network_target share_target control on_share_found left nonce s in
          IsScanned left nonce s end.0 end.1)
  unfolding scan_loop
  scan_loop-IsScanned zero nonce s lt h = record {
    rounds = 0;
    ends = (omega arith, omega arith);
    quiet = λ i l. absurd (omega arith);
    shares = omega arith;
    blocks = omega arith;
    reported = refl;
  }
  scan_loop-IsScanned (suc left) nonce s lt h =
      go (scan_round network_target share_target control on_share_found nonce s)
        (round-cases left nonce s (omega arith) h)
        (λ t ht. scan_loop-IsScanned left (suc nonce) t (omega arith) ht)
    where
      go :
          (round : Round S)
          → RoundOf left nonce s round
          → ((t : ScanState S)
              → IsScanning left t
              → (let end =
                    scan_loop network_target share_target control on_share_found left
                      (suc nonce)
                      t in
                  IsScanned left (suc nonce) t end.0 end.1))
          → (let end : ScanState S × ScanStopReason = elim round [
            | next t ↦
                scan_loop network_target share_target control on_share_found left (suc nonce) t
            | leave t reason ↦ (t, reason)
          ] in
              IsScanned (suc left) nonce s end.0 end.1)
      go (next t) (quiet, found, scanning) rest =
          let end =
            scan_loop network_target share_target control on_share_found left (suc nonce) t in
          IsScanned-suc left nonce s t end.0 end.1 quiet found (rest t scanning)
      go (leave t reason) x rest = x
