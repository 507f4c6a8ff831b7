-- ===== src/Startup/Pids.antt =====
-- The pids that start-up gives are different.
use ece_354_real_time_operat.Base.{
  ℕ, zero, suc, ◌+◌, ◌^◌, ◌<◌, ◌≡◌, refl, sym, ap, ◌∙◌, inl, inr, Bool, true, ◌&&◌, ◌||◌, arith,
  ◌==◌, ltb, if◌then◌else◌, update, Bool-cases,
}
use ece_354_real_time_operat.Chain.{Ptr}
use ece_354_real_time_operat.Core.State.{pcb_limit, minus_one}
use ece_354_real_time_operat.Startup.{TestProc, test_blocks, init_blocks, main_block}
use ece_354_real_time_operat.Startup.Loads.{stored}

-- The pids of the PCBs, where `f` is what the memory held before.
abbrev pub started_pids : (ℕ → ℕ) → (ℕ → TestProc) → (Ptr → ℕ) → Ptr → ℕ
started_pids code tests f =
    update (stored (λ b. b.pid) 1 (init_blocks code tests) f) main_block minus_one

-- The PCB of a pid.
abbrev pcb_of : ℕ → Ptr
pcb_of n =
    if n == 0
    then 1
    else if n == 7
    then 2
    else if n == 8
    then 3
    else if n == 9
    then 4
    else if n == 10
    then 5
    else if n == 11
    then 6
    else if n == 12
    then 7
    else if n == 60
    then 8
    else if n == 80
    then 9
    else if n == minus_one
    then main_block
    else n + 9

-- A test that holds of all numbers below `n`.
abbrev all_below : ℕ → (ℕ → Bool) → Bool
all_below zero test = true
all_below (suc n) test = test n && all_below n test

all_below-at : (n i : ℕ) (test : ℕ → Bool) → all_below n test ≡ true → i < n → test i ≡ true
all_below-at zero i test e h = absurd (omega arith)
all_below-at (suc n) i test e h = elim (Bool-cases (i == n)) [
  | inl same ↦ let same' : i ≡ n = ground arith in rw same' (ground arith)
  | inr other ↦ all_below-at n i test (ground arith) (ground arith)
]

all_found :
    (code : ℕ → ℕ) (tests : ℕ → TestProc) (f : Ptr → ℕ)
    → all_below pcb_limit (λ p. p == 0 || pcb_of (started_pids code tests f p) == p) ≡ true
unfolding init_blocks test_blocks
all_found code tests f = refl

all_words :
    (code : ℕ → ℕ) (tests : ℕ → TestProc) (f : Ptr → ℕ)
    → all_below pcb_limit (λ p. p == 0 || ltb (started_pids code tests f p) (2 ^ 32)) ≡ true
unfolding init_blocks test_blocks
all_words code tests f = refl

below_word : (x p : ℕ) → 0 < p → (p == 0 || ltb x (2 ^ 32)) ≡ true → x < 2 ^ 32
below_word x p live e = ground arith

-- Every pid is a 32-bit word.
pub started_pids_words :
    (code : ℕ → ℕ) (tests : ℕ → TestProc) (f : Ptr → ℕ) (p : Ptr)
    → 0 < p
    → p < pcb_limit
    → started_pids code tests f p < 2 ^ 32
started_pids_words code tests f p live low =
    let small =
      all_below-at pcb_limit p (λ p. p == 0 || ltb (started_pids code tests f p) (2 ^ 32))
        (all_words code tests f) low in
    below_word (started_pids code tests f p) p live small

named_by : (x p : Ptr) → 0 < p → (p == 0 || x == p) ≡ true → x ≡ p
named_by x p live e = ground arith

pcb_of-started_pids :
    (code : ℕ → ℕ) (tests : ℕ → TestProc) (f : Ptr → ℕ) (p : Ptr)
    → 0 < p
    → p < pcb_limit
    → pcb_of (started_pids code tests f p) ≡ p
pcb_of-started_pids code tests f p live low =
    let found =
      all_below-at pcb_limit p (λ p. p == 0 || pcb_of (started_pids code tests f p) == p)
        (all_found code tests f) low in
    named_by (pcb_of (started_pids code tests f p)) p live found

pub started_pids-distinct :
    (code : ℕ → ℕ) (tests : ℕ → TestProc) (f : Ptr → ℕ) (p q : Ptr)
    → 0 < p
    → p < pcb_limit
    → 0 < q
    → q < pcb_limit
    → started_pids code tests f p ≡ started_pids code tests f q
    → p ≡ q
started_pids-distinct code tests f p q live low live' low' e =
    sym (pcb_of-started_pids code tests f p live low)
    ∙ (ap pcb_of e ∙ pcb_of-started_pids code tests f q live' low')
