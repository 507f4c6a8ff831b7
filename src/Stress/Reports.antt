-- ===== src/Stress/Reports.antt =====
-- The texts of the stress processes, and the numbers that stress_a sends, which stress_b sends on.
use ece_354_real_time_operat.Pids.{stress_b_pid, kcd_pid}
use ece_354_real_time_operat.Keyboard.{type_register_cmd}
use ece_354_real_time_operat.Base.{
  ℕ, suc, ◌+◌, ◌%◌, ◌^◌, ◌++◌, false, ◌≤◌, ◌≡◌, refl, some, true, List, [], ◌∷◌, arith,
}
use ece_354_real_time_operat.Strings.{str_copy}
use ece_354_real_time_operat.Strings.Texts.{text-copied}
use ece_354_real_time_operat.Stress.Processes.{
  Call, requested, released, sent_text, sent_number, gave_way, type_count_report, is_z, await_z,
  count_from, register_z, stress_a, c_chars, c_text, z_chars, z_text, text_fuel, cleared_text,
}

pub c_text-copied : str_copy text_fuel c_text cleared_text ≡ some c_text
c_text-copied = text-copied text_fuel c_chars refl (omega arith)

pub z_text-copied : str_copy text_fuel z_text cleared_text ≡ some z_text
z_text-copied = text-copied text_fuel z_chars refl (omega arith)

-- The reports in the blocks `grants`, with the numbers from `i` on; a UINT32 has 32 bits.
abbrev pub reports : ℕ → List ℕ → List Call
reports i [] = []
reports i (b ∷ bs) =
    requested b
    ∷ sent_number stress_b_pid b (record { type = type_count_report; msg = i % 2 ^ 32 })
    ∷ gave_way
    ∷ reports (suc i) bs

count_from-reports :
    (num i : ℕ) (grants : List ℕ) → num ≡ i % 2 ^ 32 → count_from num grants ≡ reports i grants
unfolding count_from
count_from-reports num i [] e = refl
count_from-reports num i (b ∷ bs) e =
    let next : (num + 1) % 2 ^ 32 ≡ suc i % 2 ^ 32 = omega arith in
    let rest = count_from-reports ((num + 1) % 2 ^ 32) (suc i) bs next in rw (rest, e) refl

-- The messages are given back, one after the other.
abbrev pub all_released : List ℕ → List Call
all_released [] = []
all_released (m ∷ ms) = released m ∷ all_released ms

-- No text of the messages starts with %Z.
abbrev pub NoneIsZ : (ℕ → ℕ → ℕ) → List ℕ → Type 0
NoneIsZ msg [] = 0 ≤ 0
NoneIsZ msg (m ∷ ms) = (is_z (msg m) ≡ false) × NoneIsZ msg ms

await_z-released :
    (msg : ℕ → ℕ → ℕ) (before : List ℕ) (z : ℕ) (after : List ℕ)
    → NoneIsZ msg before
    → is_z (msg z) ≡ true
    → await_z msg (before ++ (z ∷ after)) ≡ some (all_released (before ++ (z ∷ [])))
unfolding await_z
await_z-released msg [] z after none_there hit = rw hit refl
await_z-released msg (m ∷ before) z after none_there hit =
    rw (await_z-released msg before z after none_there.1 hit, none_there.0) refl

-- If a message that starts with %Z comes after others that do not, stress_a sends the text "%Z" to
-- KCD in its first block, as a registration, and gives back every message up to that one; then it
-- sends one count report to stress_b in each block that it gets, the first with 0 and each with a
-- number higher by one, modulo 2 ^ 32, and gives up the processor after each.
pub stress_a-reports :
    (msg : ℕ → ℕ → ℕ) (reg_cmd : ℕ) (before : List ℕ) (z : ℕ) (after grants : List ℕ)
    → NoneIsZ msg before
    → is_z (msg z) ≡ true
    → stress_a msg reg_cmd (before ++ (z ∷ after)) grants
      ≡ some (
          requested reg_cmd
          ∷ sent_text kcd_pid reg_cmd type_register_cmd z_text
          ∷ (all_released (before ++ (z ∷ [])) ++ reports 0 grants))
unfolding stress_a register_z
stress_a-reports msg reg_cmd before z after grants none_there hit =
    rw
      (
        z_text-copied,
        await_z-released msg before z after none_there hit,
        count_from-reports 0 0 grants (omega arith),
      )
      refl
