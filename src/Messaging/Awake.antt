-- ===== src/Messaging/Awake.antt =====
-- The kernel in the loop of check_existing_delayed_message, and that a pid names one process.
use ece_354_real_time_operat.Core.Present.{Keeps}
use ece_354_real_time_operat.Base.{
  ℕ, ◌<◌, ◌≡◌, sym, ◌∙◌, ◌≢◌, inl, inr, [], arith, ◌==◌, Bool-cases,
}
use ece_354_real_time_operat.Chain.{Ptr, null}
use ece_354_real_time_operat.Core.State.{ready_queue, Kernel, Queues, pcb_limit}
use ece_354_real_time_operat.Core.Lookup.Finds.{Lookup, running, queued, missing}
use ece_354_real_time_operat.Core.Invariant.{IsValid}

-- No two processes have the same pid.
pub record HasDistinctPids (k : Kernel) : Type 0 where
  pub distinct :
      (p q : Ptr) → 0 < p → p < pcb_limit → 0 < q → q < pcb_limit → k.pid p ≡ k.pid q → p ≡ q
  pub main_low : k.main_process < pcb_limit

-- The kernel `k` in a loop that started in `k0`: the same process runs, no process is lost, and no ready process
-- has a priority above both that of the running one and `highest`.
pub record IsAwake (k0 : Kernel) (highest : ℕ) (k : Kernel) : Type 0 where
  pub queues : Queues
  pub valid : IsValid k queues
  pub same_pid : k.pid ≡ k0.pid
  pub same_priority : k.priority ≡ k0.priority
  pub same_main : k.main_process ≡ k0.main_process
  pub same_running : k.running_process ≡ k0.running_process
  pub keeps : Keeps k0 k
  pub above : (j : ℕ) → j < k.priority k.running_process → j < highest → queues ready_queue j ≡ []

pub IsAwake-HasDistinctPids :
    {k0 k : Kernel} {highest : ℕ} → IsAwake k0 highest k → HasDistinctPids k0 → HasDistinctPids k
IsAwake-HasDistinctPids v d = record {
  distinct = rw v.same_pid d.distinct;
  main_low = rw v.same_main d.main_low;
}

module _ {k : Kernel} {a : Queues} (v : IsValid k a) (d : HasDistinctPids k) where
  running_low : k.running_process < pcb_limit
  running_low = elim (Bool-cases (k.running_process == k.main_process)) [
    | inl e ↦ let e' : k.running_process ≡ k.main_process = ground arith in rw e' d.main_low
    | inr e ↦ v.running.low (ground arith)
  ]

  -- A process with this pid that runs or is queued.
  abbrev Present : ℕ → Ptr → Type 0
  Present pid p = (p ≢ null) × (p < pcb_limit) × (k.pid p ≡ pid)

  Lookup-Present : {pid : ℕ} {p : Ptr} → Lookup k a pid p → p ≢ null → Present pid p
  Lookup-Present (running live e) named = (live, running_low, e)
  Lookup-Present (queued {p} q i inside live e) named = (live, v.placed.held.small q i p inside, e)
  Lookup-Present (missing gone out none_left) named = absurd (named gone)

  missing_all : {pid : ℕ} {p q : Ptr} → Lookup k a pid p → p ≡ null → Lookup k a pid q → q ≡ null
  missing_all (running live e) gone other = absurd (live gone)
  missing_all (queued q i inside live e) gone other = absurd (live gone)
  missing_all (missing e out none_left) gone (running live e') = absurd (out live e')
  missing_all (missing e out none_left) gone (queued {p} q i inside live e') =
      absurd (none_left q i p inside e')
  missing_all (missing e out none_left) gone (missing e' out' none_left') = e'

  -- The process of a pid is determined.
  pub Lookup-unique : {pid : ℕ} {p q : Ptr} → Lookup k a pid p → Lookup k a pid q → p ≡ q
  Lookup-unique {pid} {p} {q} found found' = elim (Bool-cases (p == null)) [
    | inl e ↦ let gone : p ≡ null = ground arith in gone ∙ sym (missing_all found gone found')
    | inr e ↦
        let here : p ≢ null = ground arith in
        let (live, low, name) = Lookup-Present found here in
        let there : q ≢ null = λ e'. here (missing_all found' e' found) in
        let (live', low', name') = Lookup-Present found' there in
        d.distinct p q (ground arith) low (ground arith) low' (name ∙ sym name')
  ]
