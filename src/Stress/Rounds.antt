-- ===== src/Stress/Rounds.antt =====
-- stress_c over any number of rounds: which messages it handles, in which order, and what it asks of
-- the executive for each.
use ece_354_real_time_operat.Pids.{stress_c_pid, crt_pid}
use ece_354_real_time_operat.Base.{ℕ, suc, ◌+◌, ◌≤◌, ◌≡◌, List, [], ◌∷◌, ◌++◌, if◌then◌else◌, ◌>>=◌}
use ece_354_real_time_operat.Chain.{length}
use ece_354_real_time_operat.Messaging.Scans.{passing}
use ece_354_real_time_operat.Stress.Queue.{IsLocal}
use ece_354_real_time_operat.Stress.Processes.{
  NumMessage, Call, requested, released, sent_text, sent_late, gave_way, c_text, type_wakeup10,
  StressC, is_announced,
}
use ece_354_real_time_operat.Stress.Handled.{is_other, wakes, ahead}

-- What the process asks for when it announces a number, with the two blocks that it gets.
abbrev announcement : ℕ → ℕ → List Call
announcement proc_c hibernate =
    requested proc_c
    ∷ sent_text crt_pid proc_c 0 c_text
    ∷ requested hibernate
    ∷ sent_late stress_c_pid hibernate type_wakeup10 10000
    ∷ []

-- A round: the message that it handles, the block of its text, and the value of `hibernate` at its end.
pub record Turn : Type 0 where
  pub handled : ℕ
  pub proc_c : ℕ
  pub hibernate : ℕ

-- The calls of a round.
abbrev pub answer : (ℕ → NumMessage) → Turn → List Call
answer content t =
    released t.handled
    ∷ ((if is_announced (content t.handled) then announcement t.proc_c t.hibernate else [])
        ++ (released t.hibernate ∷ gave_way ∷ []))

abbrev pub answers : (ℕ → NumMessage) → List Turn → List Call
answers content [] = []
answers content (t ∷ ts) = answer content t ++ answers content ts

abbrev pub handled : List Turn → List ℕ
handled [] = []
handled (t ∷ ts) = t.handled ∷ handled ts

abbrev pub turns : List Turn → ℕ
turns [] = 0
turns (t ∷ ts) = suc (turns ts)

module _ (content : ℕ → NumMessage) where
  abbrev Announced : StressC → List ℕ → List Call × StressC → Type 0
  Announced s xs (calls, s') =
      (xs' : List ℕ) × (proc_c : ℕ) × IsLocal s'.queue xs'
      × (ahead content xs' s'.inbox ≡ ahead content xs s.inbox)
      × (wakes content s.inbox ≡ suc (wakes content s'.inbox))
      × (length s.grants ≡ 2 + length s'.grants)
      × (calls ≡ announcement proc_c s'.hibernate)

  -- What a round does.
  abbrev Rounded : StressC → List ℕ → List Call × StressC → Type 0
  Rounded s xs (calls, s') =
      (xs' : List ℕ) × (t : Turn) × IsLocal s'.queue xs'
      × (passing (is_other content) (t.handled ∷ (xs' ++ s'.inbox)) ≡ ahead content xs s.inbox)
      × (wakes content s.inbox ≤ 2 + wakes content s'.inbox)
      × (length s.grants ≤ 2 + length s'.grants)
      × (calls ≡ answer content t)

  -- What `n` rounds do to a process whose queue holds `xs`.
  abbrev pub Handled : ℕ → StressC → List ℕ → List Call × StressC → Type 0
  Handled n s xs (calls, s') =
      (ts : List Turn) × (xs' : List ℕ) × (turns ts ≡ n)
      × IsLocal s'.queue xs'
      × (passing (is_other content) (handled ts ++ (xs' ++ s'.inbox)) ≡ ahead content xs s.inbox)
      × (calls ≡ answers content ts)
