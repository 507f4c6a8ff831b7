-- ===== src/Startup/Tests.antt =====
-- Start-up with tests of priority 2, in the memory of the tests of the kernel.
use ece_354_real_time_operat.Base.{[]}
use ece_354_real_time_operat.Base.{ℕ, ◌+◌, ◌≡◌, arith, some, Returns, Returns-some}
use ece_354_real_time_operat.Memory.Tests.{start}
use ece_354_real_time_operat.Memory.Tests.Calls.{system}
use ece_354_real_time_operat.Startup.{TestProc, main}
use ece_354_real_time_operat.Startup.Boots.{Booted, main-Booted}
use ece_354_real_time_operat.Startup.Reaches.{released, here, next, IsSafe, main-IsSafe}
use ece_354_real_time_operat.Core.State.{Kernel}
use ece_354_real_time_operat.Core.Invariant.{IsSteady}
use ece_354_real_time_operat.Core.Switch.{release_processor}
use ece_354_real_time_operat.Core.Switch.Stays.{release_processor-IsSteady}
use ece_354_real_time_operat.System.{System}

abbrev code : ℕ → ℕ
code pid = 268435456 + pid

abbrev tests : ℕ → TestProc
tests i = record { priority = 2; entry = 100; sz_stack = 512 }

main-Booted_example : Returns (Booted code tests) (main code tests 300000 (system start))
main-Booted_example = main-Booted code tests 300000 (system start) (λ i h. omega arith)

-- The state after start-up, and the kernel after KCD has given up the processor.
started : (s : System) × (main code tests 300000 (system start) ≡ some s) × Booted code tests s
started = Returns-some (main-Booted code tests 300000 (system start) (λ i h. omega arith))

switched :
    (k : Kernel) × (release_processor started.0.kernel ≡ some k) × IsSteady started.0.kernel k
switched = Returns-some (release_processor-IsSteady started.2.valid)

main-IsSafe_example : IsSafe [] switched.0
main-IsSafe_example =
    main-IsSafe code tests 300000 (system start) (λ i h. omega arith) started.1
      (next here (released switched.1))
