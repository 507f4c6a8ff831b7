-- ===== src/Stress/Handled.antt =====
-- stress_c handles every message, in the order in which they come.
use ece_354_real_time_operat.Base.{
  ℕ, suc, ◌≤◌, ◌<◌, ◌≡◌, refl, sym, ap, ◌∙◌, inl, inr, Bool, true, not, List, [], ◌∷◌, ◌++◌,
  append_assoc, arith, ◌==◌, if◌then◌else◌, Bool-cases, Returns, returns, mono,
}
use ece_354_real_time_operat.Messaging.Scans.{passing}
use ece_354_real_time_operat.Stress.{LocalQueue, enqueue_local_msg}
use ece_354_real_time_operat.Stress.Queue.{
  IsLocal, IsLocal-nil, IsLocal-cons, enqueue_local_msg-IsLocal, next_msg-IsLocal,
}
use ece_354_real_time_operat.Stress.Processes.{
  NumMessage, type_wakeup10, StressC, receive, sleep, fetch,
}

-- A message that ends a hibernation, and one that does not.
abbrev is_wake : (ℕ → NumMessage) → ℕ → Bool
is_wake content m = (content m).type == type_wakeup10

abbrev pub is_other : (ℕ → NumMessage) → ℕ → Bool
is_other content m = not (is_wake content m)

-- How many of the messages end a hibernation.
unfoldable pub wakes : (ℕ → NumMessage) → List ℕ → ℕ
wakes content [] = 0
wakes content (m ∷ ms) = let rest = wakes content ms in if is_wake content m then suc rest else rest

passing-append :
    (test : ℕ → Bool) (xs ys : List ℕ)
    → passing test (xs ++ ys) ≡ passing test xs ++ passing test ys
unfolding passing
passing-append test [] ys = refl
passing-append test (x ∷ xs) ys = elim (Bool-cases (test x)) [
  | inl e ↦ rw e (ap (λ l. x ∷ l) (passing-append test xs ys))
  | inr e ↦ rw e (passing-append test xs ys)
]

-- What the process has and will get, in order, without the messages that end hibernations.
abbrev pub ahead : (ℕ → NumMessage) → List ℕ → List ℕ → List ℕ
ahead content xs ms = passing (is_other content) (xs ++ ms)

ahead_wake :
    (content : ℕ → NumMessage) (m : ℕ) (xs ms : List ℕ)
    → is_wake content m ≡ true
    → ahead content xs (m ∷ ms) ≡ ahead content xs ms
unfolding passing
ahead_wake content m xs ms e =
    passing-append (is_other content) xs (m ∷ ms)
    ∙ (rw e refl ∙ sym (passing-append (is_other content) xs ms))

module _ (content : ℕ → NumMessage) where
  -- The inner loop.
  pub sleep-IsLocal :
      (ms : List ℕ) (q : LocalQueue) (xs : List ℕ)
      → IsLocal q xs
      → 0 < wakes content ms
      → Returns
          (λ (q', rest).
            (xs' : List ℕ) × IsLocal q' xs'
            × (ahead content xs' rest ≡ ahead content xs ms)
            × (wakes content ms ≡ suc (wakes content rest)))
          (sleep content ms q)
  unfolding sleep wakes
  sleep-IsLocal [] q xs v enough = absurd (omega arith)
  sleep-IsLocal (m ∷ ms) q xs v enough = elim (Bool-cases (is_wake content m)) [
    | inl e ↦ rw e (returns (xs, v, sym (ahead_wake content m xs ms e), refl))
    | inr e ↦ rw e (
        mono
          (sleep-IsLocal ms (enqueue_local_msg m q) (xs ++ (m ∷ [])) (enqueue_local_msg-IsLocal m v)
            (rw e at enough))
          λ (q', rest) (xs', v', same, fewer).
            (xs', v', same ∙ ap (passing (is_other content)) (append_assoc xs (m ∷ []) ms), fewer))
  ]

  -- What the start of a round gives.
  abbrev pub Fetched : StressC → List ℕ → ℕ × StressC → Type 0
  Fetched s xs (m, s') =
      (xs' : List ℕ) × IsLocal s'.queue xs'
      × (m ∷ (xs' ++ s'.inbox) ≡ xs ++ s.inbox)
      × (s' ≡ record s { queue = s'.queue; inbox = s'.inbox })
      × (wakes content s.inbox ≤ suc (wakes content s'.inbox))

  pub fetch-Fetched :
      (s : StressC) (xs : List ℕ)
      → IsLocal s.queue xs
      → 0 < wakes content s.inbox
      → Returns (Fetched s xs) (fetch s)
  unfolding fetch wakes
  fetch-Fetched s (x ∷ xs) v enough =
      let (e, v') = next_msg-IsLocal 0 v in
      rw (IsLocal-cons v) (returns (xs, v', rw e refl, refl, omega arith))
  fetch-Fetched s [] v enough = rw (IsLocal-nil v) (received s.inbox refl)
    where
      received : (ms : List ℕ) → s.inbox ≡ ms → Returns (Fetched s []) (receive s)
      received [] e = absurd (let h = rw e at enough in omega arith)
      received (m ∷ ms) e = rw e (
          returns (
            [],
            v,
            refl,
            refl,
            elim (Bool-cases (is_wake content m)) [
              | inl w ↦ rw w (omega arith)
              | inr w ↦ rw w (omega arith)
            ],
          ))
