-- ===== src/Core/State.antt =====
-- The kernel's data: core/core.h, and the globals of core/core.c. A PCB is named by its address.
-- Each field of `struct pcb` is a store of its own, so the record `Kernel` is the memory in which the
-- PCBs lie. Numbers of type UINT32 and SINT32 are 32-bit patterns.
use ece_354_real_time_operat.Base.{
  ℕ, ◌^◌, ◌-◌, ◌<◌, ◌≡◌, refl, ◌⊎◌, inr, Bool, true, false, ◌&&◌, List, arith, ◌==◌, leb,
  if◌then◌else◌,
}
use ece_354_real_time_operat.Chain.{Ptr, has, Chain}

pub data ProcessState : Type 0 where
  new ready blocked_mem blocked_msg : ProcessState

pub data BlockType : Type 0 where
  mem msg : BlockType

-- The three arrays of queue heads.
pub data QueueName : Type 0 where
  ready_queue mem_blocked_queue msg_blocked_queue : QueueName

abbrev pub same_queue : QueueName → QueueName → Bool
same_queue ready_queue ready_queue = true
same_queue mem_blocked_queue mem_blocked_queue = true
same_queue msg_blocked_queue msg_blocked_queue = true
same_queue _ _ = false

-- `queue[i] = v` in one of the arrays.
abbrev pub set_queue {ℓ} :
    {A : Type ℓ} → (QueueName → ℕ → A) → QueueName → ℕ → A → QueueName → ℕ → A
set_queue f q i v r j = if same_queue q r && i == j then v else f r j

-- What the queue operations write: the `next` fields and the heads.
pub record Links : Type 0 where
  pub next : Ptr → Ptr
  pub heads : QueueName → ℕ → Ptr

-- The registers that a switch saves and restores.
pub record Registers : Type 0 where
  pub d : ℕ → ℕ
  pub a : ℕ → ℕ

-- `atomic_status`, and the interrupt mask that the last write to the status register left.
pub record Atomic : Type 0 where
  pub status : ℕ
  pub masked : Bool

pub record Kernel : Type 0 where
  pub links : Links
  pub pid : Ptr → ℕ
  pub priority : Ptr → ℕ
  pub state : Ptr → ProcessState
  pub registers : Ptr → Registers
  pub running_process : Ptr
  pub main_process : Ptr
  pub cpu : Registers
  pub atomic : Atomic

abbrev pub levels : ℕ
levels = 5

-- initialize_processes creates 15 PCBs and the one of `main`; they are numbered from 1, and NULL is
-- 0. A list of PCBs has fewer than this many.
abbrev pub pcb_limit : ℕ
pcb_limit = 17

-- -1, as a 32-bit pattern.
abbrev pub minus_one : ℕ
minus_one = 2 ^ 32 - 1

abbrev pub is_negative : ℕ → Bool
is_negative n = leb (2 ^ 31) n

-- Two places in the arrays are one or not, and the test says which.
pub place_cases :
    (q : QueueName) (i : ℕ) (r : QueueName) (j : ℕ)
    → (((same_queue q r && i == j) ≡ true) × (q ≡ r) × (i ≡ j))
      ⊎ ((same_queue q r && i == j) ≡ false)
place_cases ready_queue i ready_queue j = ground arith
place_cases ready_queue i mem_blocked_queue j = inr refl
place_cases ready_queue i msg_blocked_queue j = inr refl
place_cases mem_blocked_queue i ready_queue j = inr refl
place_cases mem_blocked_queue i mem_blocked_queue j = ground arith
place_cases mem_blocked_queue i msg_blocked_queue j = inr refl
place_cases msg_blocked_queue i ready_queue j = inr refl
place_cases msg_blocked_queue i mem_blocked_queue j = inr refl
place_cases msg_blocked_queue i msg_blocked_queue j = ground arith

pub place_self : (q : QueueName) (i : ℕ) → (same_queue q q && i == i) ≡ true
place_self ready_queue i = ground arith
place_self mem_blocked_queue i = ground arith
place_self msg_blocked_queue i = ground arith

-- The abstract view: the processes of each queue at each priority, in order.
abbrev pub Queues : Type 0
Queues = QueueName → ℕ → List Ptr

abbrev pub Waits : Queues → Ptr → Type 0
Waits a p = (q : QueueName) (i : ℕ) → has p (a q i) ≡ false

-- The heads and `next` fields hold the queues of `a`: each is a list that ends in NULL, no process
-- stands in two of them, and all are PCBs.
pub record Holds (l : Links) (a : Queues) : Type 0 where
  pub chains : (q : QueueName) (i : ℕ) → Chain l.next (l.heads q i) (a q i)
  pub apart :
      (q : QueueName) (i : ℕ) (r : QueueName) (j : ℕ) (p : Ptr)
      → has p (a q i) ≡ true
      → has p (a r j) ≡ true
      → (q ≡ r) × (i ≡ j)
  pub small : (q : QueueName) (i : ℕ) (p : Ptr) → has p (a q i) ≡ true → p < pcb_limit
