-- ===== src/Executive/Passes.antt =====
-- What a handler does to the kernel alone, and what it leaves when it has passed through atomic mode.
use ece_354_real_time_operat.Base.{List}
use ece_354_real_time_operat.Chain.{Ptr}
use ece_354_real_time_operat.Base.{◌≡◌, refl, ◌≢◌}
use ece_354_real_time_operat.Core.State.{Kernel}
use ece_354_real_time_operat.Core.Interrupts.{atomic, atomic_up, atomic_down}
use ece_354_real_time_operat.Core.Lookup.{get_current_pid}
use ece_354_real_time_operat.Core.Invariant.{IsValid, IsTop, IsSteady, IsSteady-trans}
use ece_354_real_time_operat.Core.Switch.Releases.{IsValid-other}
use ece_354_real_time_operat.Core.Blocking.Blocks.{IsSteady-refl}
use ece_354_real_time_operat.Startup.Reaches.{IsSafe, IsSteady-IsSafe, other_pid}
use ece_354_real_time_operat.Executive.{IsSound}
use ece_354_real_time_operat.System.{System}

module _ {gone : List Ptr} {s : System} (v : IsSound gone s) where
  -- A call that changes the kernel alone.
  pub switched-IsSound :
      {gone' : List Ptr} {k : Kernel}
      → IsSafe gone' k
      → k.pid ≡ s.kernel.pid
      → IsSound gone' (record s { kernel = k })
  switched-IsSound safe same = record {
    safe = safe;
    words = rw same v.words;
    available = v.available;
    used = v.used;
    pool = v.pool;
    clean = v.clean;
    messages = v.messages;
    waiting = v.waiting;
    inbox = v.inbox;
    later = v.later;
    held = v.held;
    few = v.few;
  }

  pub kernel-IsSound : {k : Kernel} → IsSteady s.kernel k → IsSound gone (record s { kernel = k })
  kernel-IsSound t = switched-IsSound (IsSteady-IsSafe v.safe t) t.same_pid

  -- A handler that enters and leaves atomic mode.
  pub passed-IsSteady : IsSteady s.kernel (atomic_down (atomic_up s.kernel))
  unfolding atomic_up atomic_down
  passed-IsSteady = IsSteady-refl (atomic 0 (atomic 1 s.kernel.atomic)) v.safe.valid v.safe.top

  pub blocked-IsSteady :
      {k : Kernel} → IsSteady (atomic_up (atomic_down (atomic_up s.kernel))) k → IsSteady s.kernel k
  unfolding atomic_up atomic_down
  blocked-IsSteady t = IsSteady-trans _ refl refl refl (λ x other h. h) t

  pub passing-IsValid : IsValid (atomic_up (atomic_down (atomic_up s.kernel))) v.safe.queues
  unfolding atomic_up atomic_down
  passing-IsValid = IsValid-other (atomic 1 (atomic 0 (atomic 1 s.kernel.atomic))) v.safe.valid

  pub passing-IsTop : IsTop (atomic_up (atomic_down (atomic_up s.kernel))) v.safe.queues
  unfolding atomic_up atomic_down
  passing-IsTop = v.safe.top

  pub after-IsValid : IsValid (atomic_down (atomic_up s.kernel)) v.safe.queues
  unfolding atomic_up atomic_down
  after-IsValid = IsValid-other (atomic 0 (atomic 1 s.kernel.atomic)) v.safe.valid

  pub after-IsTop : IsTop (atomic_down (atomic_up s.kernel)) v.safe.queues
  unfolding atomic_up atomic_down
  after-IsTop = v.safe.top

  pub after-IsSteady :
      {k : Kernel} → IsSteady (atomic_down (atomic_up s.kernel)) k → IsSteady s.kernel k
  unfolding atomic_up atomic_down
  after-IsSteady t = IsSteady-trans _ refl refl refl (λ x other h. h) t

  pub other_after :
      s.kernel.running_process ≢ s.kernel.main_process
      → get_current_pid (atomic_up s.kernel) ≢ s.kernel.pid s.kernel.main_process
  unfolding atomic_up get_current_pid
  other_after other = other_pid v.safe other
