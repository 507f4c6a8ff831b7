-- ===== src/Console/Registrations.antt =====
-- After the registrations, in any order, KCD has the commands of the processes.
use ece_354_real_time_operat.Pids.{kcd_pid}
use ece_354_real_time_operat.Base.{
  ℕ, zero, suc, ◌+◌, ◌*◌, ◌≤◌, ◌<◌, ◌≡◌, refl, sym, subst, true, some, List, [], ◌∷◌, ◌++◌,
  append-nil, append_assoc, arith,
}
use mathlib.Core.Path.{fun_ext}
use ece_354_real_time_operat.Chain.{length}
use ece_354_real_time_operat.Strings.{text}
use ece_354_real_time_operat.Strings.Texts.{all_live, text-IsEnd, text-copied}
use ece_354_real_time_operat.Keyboard.{
  nul, kcd_buffer_size, clr_chars, RegCmd, Kcd, Message, Call, released, register_command,
  start_kcd, kcd_round, kcd_rounds,
}
use ece_354_real_time_operat.Keyboard.Commands.{IsText, AllText, rounds_for}
use ece_354_real_time_operat.Keyboard.Buffers.{IsBuffered}
use ece_354_real_time_operat.PriorityCommand.{register_c}
use ece_354_real_time_operat.Stress.Processes.{z_chars}
use ece_354_real_time_operat.WallClock.{ws_chars, wt_chars}
use ece_354_real_time_operat.Console.{IsRegistration, of_z, of_ws, of_wt, of_c, AreRegistrations}

abbrev pub c_chars : List ℕ
c_chars = 0x25 ∷ 0x43 ∷ []

register_c-text : register_c ≡ text c_chars
register_c-text = fun_ext λ i. two_writes i
  where
    two_writes : (i : ℕ) → register_c i ≡ text c_chars i
    two_writes zero = refl
    two_writes (suc zero) = refl
    two_writes (suc (suc i)) = ground arith

-- The command that a message leaves.
abbrev pub cmd_of : Message → RegCmd
cmd_of m = record { pid = m.tx; cmd = m.text }

abbrev pub cmds_of : List Message → List RegCmd
cmds_of [] = []
cmds_of (m ∷ ms) = cmd_of m ∷ cmds_of ms

-- A block is given back for each message.
abbrev pub given_back : List Message → List Call
given_back [] = []
given_back (m ∷ ms) = released ∷ given_back ms

registered :
    (fuel : ℕ) (m : Message) (k : Kcd)
    → IsRegistration m
    → 3 < fuel
    → kcd_round fuel m k ≡ some (released ∷ [], record k { cmds = k.cmds ++ (cmd_of m ∷ []) })
unfolding kcd_round register_command
registered fuel m k of_z enough = rw (text-copied fuel z_chars refl (omega arith)) refl
registered fuel m k of_ws enough = rw (text-copied fuel ws_chars refl (omega arith)) refl
registered fuel m k of_wt enough = rw (text-copied fuel wt_chars refl (omega arith)) refl
registered fuel m k of_c enough =
    rw (register_c-text, text-copied fuel c_chars refl (omega arith)) refl

-- KCD gives back every registration, and keeps the commands in the order of the messages.
pub kcd_rounds-cmds_of :
    (fuel : ℕ) (ms : List Message) (k : Kcd)
    → AreRegistrations ms
    → 3 < fuel
    → kcd_rounds fuel ms k ≡ some (given_back ms, record k { cmds = k.cmds ++ cmds_of ms })
unfolding kcd_rounds
kcd_rounds-cmds_of fuel [] k all enough = rw append-nil refl
kcd_rounds-cmds_of fuel (m ∷ ms) k all enough =
    rw
      (
        registered fuel m k all.0 enough,
        kcd_rounds-cmds_of fuel ms (record k { cmds = k.cmds ++ (cmd_of m ∷ []) }) all.1 enough,
        append_assoc k.cmds (cmd_of m ∷ []) (cmds_of ms),
      )
      refl

abbrev pub clr_cmd : RegCmd
clr_cmd = record { pid = kcd_pid; cmd = text clr_chars }

abbrev pub started_kcd : Kcd
started_kcd = record { buffer = λ i. nul; kbuf_size = 0; cmds = clr_cmd ∷ [] }

pub start_kcd_lem : (fuel : ℕ) → 4 < fuel → start_kcd fuel ≡ some started_kcd
unfolding start_kcd register_command
start_kcd_lem fuel enough = rw (text-copied fuel clr_chars refl (omega arith)) refl

-- KCD after its start and the registrations.
abbrev pub registered_kcd : List Message → Kcd
registered_kcd ms = record started_kcd { cmds = clr_cmd ∷ cmds_of ms }

text-IsText :
    (cs : List ℕ)
    → all_live cs ≡ true
    → 1 ≤ length cs
    → length cs < kcd_buffer_size
    → IsText (text cs)
text-IsText cs all first short =
    let v = text-IsEnd cs all in (length cs, first, short, v.nul, λ i h h'. v.before i h')

registration-IsText : (m : Message) → IsRegistration m → IsText m.text
registration-IsText m of_z = text-IsText z_chars refl (omega arith) (omega arith)
registration-IsText m of_ws = text-IsText ws_chars refl (omega arith) (omega arith)
registration-IsText m of_wt = text-IsText wt_chars refl (omega arith) (omega arith)
registration-IsText m of_c =
    subst IsText (sym register_c-text) (text-IsText c_chars refl (omega arith) (omega arith))

cmds_of-AllText : (ms : List Message) → AreRegistrations ms → AllText (cmds_of ms)
cmds_of-AllText [] all = omega arith
cmds_of-AllText (m ∷ ms) all = (registration-IsText m all.0, cmds_of-AllText ms all.1)

abbrev pub length_of : List Message → ℕ
length_of [] = 0
length_of (m ∷ ms) = suc (length_of ms)

pub registered_kcd-IsBuffered :
    (ms : List Message) → AreRegistrations ms → IsBuffered (λ i. nul) (registered_kcd ms)
registered_kcd-IsBuffered ms all = record {
  within = omega arith;
  rest = λ i h h'. refl;
  behind = λ i h. refl;
  stop = refl;
  texts = (text-IsText clr_chars refl (omega arith) (omega arith), cmds_of-AllText ms all);
}

pub rounds_for-cmds_of : (ms : List Message) → rounds_for (cmds_of ms) ≡ 1 + 64 * length_of ms
rounds_for-cmds_of [] = refl
rounds_for-cmds_of (m ∷ ms) = omega (arith, rounds_for-cmds_of ms)
