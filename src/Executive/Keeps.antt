-- ===== src/Executive/Keeps.antt =====
-- The calls for memory return and keep the state sound.
use ece_354_real_time_operat.Base.{
  ℕ, ◌+◌, ◌<◌, ◌≡◌, refl, ◌∙◌, ◌≢◌, inl, inr, List, [], ◌∷◌, ◌++◌, arith, ◌==◌, Bool-cases, update,
  Returns, mono,
}
use ece_354_real_time_operat.Chain.{Ptr, erase}
use ece_354_real_time_operat.Core.State.{Kernel, mem}
use ece_354_real_time_operat.Core.Invariant.{IsSteady}
use ece_354_real_time_operat.Core.Blocking.Steadies.{FirstUnblocked-IsSteady, Blocked-IsSteady}
use ece_354_real_time_operat.Memory.State.{Memory, mem_block_size, IsPool, IsClean}
use ece_354_real_time_operat.Memory.Handlers.{request_memory_block, release_memory_block}
use ece_354_real_time_operat.Memory.GiveBack.{GiveBack, none_used, unknown, refused, returned}
use ece_354_real_time_operat.Memory.Calls.{
  Requested, given, made_to_wait, request_memory_block-Requested, Released, rejected, freed,
  release_memory_block-Released,
}
use ece_354_real_time_operat.Messaging.Headers.{IsPool-other}
use ece_354_real_time_operat.Startup.Reaches.{IsSteady-IsSafe}
use ece_354_real_time_operat.Executive.{addresses, IsSound, IsHeld, IsOut}
use ece_354_real_time_operat.Executive.Blocks.{wrote-clean}
use ece_354_real_time_operat.Executive.Counts.{count, count-append}
use ece_354_real_time_operat.Executive.Mailboxes.{
  addresses-append, count-addresses-erase, IsOut-count,
}
use ece_354_real_time_operat.Executive.Passes.{
  kernel-IsSound, passed-IsSteady, blocked-IsSteady, passing-IsValid, passing-IsTop, after-IsValid,
  after-IsTop, after-IsSteady, other_after,
}
use ece_354_real_time_operat.System.{System}

-- What the blocks are after one has been given back: all counts but that of its address are as before.
record IsLeft (start : Ptr → ℕ) (ys : List Ptr) (address : ℕ) (m' : Memory) : Type 0 where
  available : List Ptr
  used : List Ptr
  pool : IsPool m' available used
  clean : IsClean m' available
  others :
      (e : ℕ) → e ≢ address → count e (addresses m'.start_block used) ≡ count e (addresses start ys)

unchanged-IsLeft :
    {m : Memory} {xs ys : List Ptr} (address : ℕ)
    → IsPool m xs ys
    → IsClean m xs
    → IsLeft m.start_block ys address m
unchanged-IsLeft {xs = xs} {ys} address v clean = record {
  available = xs;
  used = ys;
  pool = v;
  clean = clean;
  others = λ e ne. refl;
}

GiveBack-IsLeft :
    {m : Memory} {xs ys : List Ptr} (v : IsPool m xs ys) {pid address : ℕ} {x : ℕ × Memory}
    → IsClean m xs
    → GiveBack v pid address x
    → IsLeft m.start_block ys address x.1
GiveBack-IsLeft v {address = address} clean (none_used e) = unchanged-IsLeft address v clean
GiveBack-IsLeft v {address = address} clean (unknown full none_there) =
    unchanged-IsLeft address v clean
GiveBack-IsLeft v {address = address} clean (refused full inside at other) =
    unchanged-IsLeft address v clean
GiveBack-IsLeft {m} {xs} {ys} v clean (returned {b} at inside owned unowned pool clean' starts) =
    record {
      available = xs ++ (b ∷ []);
      used = erase b ys;
      pool = pool;
      clean = clean' clean;
      others =
          λ e ne. rw starts (count-addresses-erase m.start_block e b ys inside (λ h. ne (h ∙ at)));
    }

module _ {gone : List Ptr} {s : System} (v : IsSound gone s) where
  left-IsSound :
      {address : ℕ} {k : Kernel} {m : Memory}
      → IsOut s address
      → IsSteady s.kernel k
      → IsLeft s.memory.start_block v.used address m
      → IsSound gone (record s { kernel = k; memory = m })
  left-IsSound {address} {m = m} out t l = record {
    safe = IsSteady-IsSafe v.safe t;
    words = rw t.same_pid v.words;
    available = l.available;
    used = l.used;
    pool = l.pool;
    clean = l.clean;
    messages = v.messages;
    waiting = v.waiting;
    inbox = v.inbox;
    later = v.later;
    held = λ e. elim (Bool-cases (e == address)) [
      | inl same ↦
          let same' : e ≡ address = ground arith in
          let (none_there, none_later) = IsOut-count v out in rw same' (omega arith)
      | inr other ↦ let before = v.held e in let h = l.others e (ground arith) in omega arith
    ];
    few = v.few;
  }

  Requested-IsSound :
      {pid : ℕ} {r : _ × System} → Requested s v.safe.valid v.pool pid r → IsSound gone r.1
  Requested-IsSound (given {x} {rest} {r} full at pool clean owner zeros starts e) = rw e (record {
    safe = IsSteady-IsSafe v.safe (passed-IsSteady v);
    words = rw (passed-IsSteady v).same_pid v.words;
    available = rest;
    used = v.used ++ (x ∷ []);
    pool = pool;
    clean = clean;
    messages = v.messages;
    waiting = v.waiting;
    inbox = v.inbox;
    later = v.later;
    held = λ e.
        let before = v.held e in
        rw (starts, addresses-append)
          (omega (
            arith,
            count-append e (addresses s.memory.start_block v.used)
                (addresses s.memory.start_block (x ∷ [])),
          ));
    few = v.few;
  })
  Requested-IsSound (made_to_wait none_left b e) = rw e (
      kernel-IsSound v
        (blocked-IsSteady v (Blocked-IsSteady (passing-IsValid v) (passing-IsTop v) _ mem b)))

  Released-IsSound :
      {address pid : ℕ} {r : ℕ × System}
      → IsOut s address
      → Released s v.safe.valid v.pool pid address r
      → IsSound gone r.1
  Released-IsSound out (rejected {code} {r} failed g e) =
      rw e (left-IsSound out (passed-IsSteady v) (GiveBack-IsLeft v.pool v.clean g))
  Released-IsSound out (freed {r} g u e) = rw e (
      left-IsSound out
        (after-IsSteady v (FirstUnblocked-IsSteady (after-IsValid v) (after-IsTop v) mem u))
        (GiveBack-IsLeft v.pool v.clean g))

  pub request_memory_block-IsSound :
      s.kernel.running_process ≢ s.kernel.main_process
      → Returns (λ r. IsSound gone r.1) (request_memory_block s)
  request_memory_block-IsSound other =
      mono (request_memory_block-Requested s v.safe.valid v.pool v.clean (other_after v other))
        λ r q. Requested-IsSound q

  pub release_memory_block-IsSound :
      (address : ℕ)
      → IsOut s address
      → Returns (λ r. IsSound gone r.1) (release_memory_block address s)
  release_memory_block-IsSound address out =
      mono (release_memory_block-Released s v.safe.valid v.pool address)
        λ r q. Released-IsSound out q

  pub wrote-IsSound :
      (envelope i byte : ℕ)
      → IsHeld s envelope
      → i < mem_block_size
      → IsSound gone (record s {
        memory = record s.memory { bytes = update s.memory.bytes (envelope + i) byte };
      })
  wrote-IsSound envelope i byte h small = record {
    safe = v.safe;
    words = v.words;
    available = v.available;
    used = v.used;
    pool = IsPool-other s.memory.pid (update s.memory.bytes (envelope + i) byte) v.pool;
    clean = wrote-clean v.pool h.used i byte small v.clean;
    messages = v.messages;
    waiting = v.waiting;
    inbox = v.inbox;
    later = v.later;
    held = v.held;
    few = v.few;
  }
