-- ===== src/Sha256/Schedules.antt =====
-- src/sha256/sha256.cpp: the message schedule against its recurrence.
use btccpu.Prelude.{
  ℕ, zero, suc, ◌+◌, ◌-◌, ◌%◌, ◌^◌, ◌≤◌, ◌<◌, ◌≡◌, refl, sym, ◌∙◌, List, [], ◌∷◌, ◌++◌, length,
  get_or, arith, length-append, get_or-append_left, get_or-snoc,
}
use native.Mathlib.Decide.{dec_lt}
use btccpu.Sha256.{small_sigma0, small_sigma1, schedule_word, schedule_loop, make_schedule}

-- `out` extends the first `t` words, up to `n` words, by the recurrence.
record IsExtended (words : List ℕ) (t n : ℕ) (out : List ℕ) : Type 0 where
  same_length : length out ≡ n
  prefix : (i : ℕ) → i < t → get_or out i 0 ≡ get_or words i 0
  recurrence : (i : ℕ) → t ≤ i → i < n → get_or out i 0 ≡ schedule_word out i

schedule_word-prefix :
    (xs ys : List ℕ) (t : ℕ)
    → 16 ≤ t
    → ((i : ℕ) → i < t → get_or ys i 0 ≡ get_or xs i 0)
    → schedule_word ys t ≡ schedule_word xs t
unfolding schedule_word
schedule_word-prefix xs ys t h same = rw (
  same (t - 2) (omega arith),
  same (t - 7) (omega arith),
  same (t - 15) (omega arith),
  same (t - 16) (omega arith),
)

IsExtended-back :
    (words out : List ℕ) (t n : ℕ)
    → length words ≡ t
    → 16 ≤ t
    → IsExtended (words ++ (schedule_word words t ∷ [])) (t + 1) n out
    → IsExtended words t n out
IsExtended-back words out t n e h rest = record {
  same_length = rest.same_length;
  prefix = old;
  recurrence = λ i l m. elim (dec_lt t i) [
    | yes above ↦ rest.recurrence i (omega arith) m
    | no at ↦ let it : i ≡ t = omega arith in rw it here
  ];
}
  where
    old : (i : ℕ) → i < t → get_or out i 0 ≡ get_or words i 0
    old i l =
        rest.prefix i (omega arith)
        ∙ get_or-append_left words (schedule_word words t ∷ []) i 0 (omega arith)

    here : get_or out t 0 ≡ schedule_word out t
    here =
        rest.prefix t (omega arith)
        ∙ get_or-snoc words (schedule_word words t) 0 t (sym e)
        ∙ sym (schedule_word-prefix words out t h old)

schedule_loop-IsExtended :
    (left t n : ℕ) (words : List ℕ)
    → length words ≡ t
    → 16 ≤ t
    → t + left ≡ n
    → IsExtended words t n (schedule_loop left t words)
unfolding schedule_loop
schedule_loop-IsExtended zero t n words e h s = record {
  same_length = omega arith;
  prefix = λ i l. refl;
  recurrence = λ i l m. absurd (omega arith);
}
schedule_loop-IsExtended (suc left) t n words e h s = IsExtended-back words _ t n e h (
    schedule_loop-IsExtended left (t + 1) n (words ++ (schedule_word words t ∷ []))
      (rw length-append (omega arith)) (omega arith) (omega arith))

-- From a block of 16 words `make_schedule` gives 64 words: the block first, and then each word t
-- is small_sigma1(w[t-2]) + w[t-7] + small_sigma0(w[t-15]) + w[t-16] modulo 2 ^ 32.
pub make_schedule_lem :
    (block : List ℕ)
    → length block ≡ 16
    → (length (make_schedule block) ≡ 64)
      × ((t : ℕ) → t < 16 → get_or (make_schedule block) t 0 ≡ get_or block t 0)
      × ((t : ℕ)
          → 16 ≤ t
          → t < 64
          → get_or (make_schedule block) t 0
            ≡ (small_sigma1 (get_or (make_schedule block) (t - 2) 0)
                + get_or (make_schedule block) (t - 7) 0
                + small_sigma0 (get_or (make_schedule block) (t - 15) 0)
                + get_or (make_schedule block) (t - 16) 0)
              % 2 ^ 32)
unfolding make_schedule
make_schedule_lem block e =
    let x = schedule_loop-IsExtended 48 16 64 block e (omega arith) (omega arith) in
    (x.same_length, x.prefix, unfold schedule_word in x.recurrence)
