-- ===== src/PriorityCommand/Replies.antt =====
-- The reply on the display: its text, if the command was no longer, and else the rest of the command too.
use ece_354_real_time_operat.Base.{
  ℕ, zero, suc, ◌+◌, ◌≤◌, ◌<◌, ◌≡◌, refl, sym, ap, ◌∙◌, inl, inr, true, false, not, Option, none,
  some, List, [], ◌∷◌, arith, ◌==◌, ltb, update, Bool-cases, Returns, returns, bind, mono, ◌>>=◌,
}
use ece_354_real_time_operat.Chain.{length}
use ece_354_real_time_operat.Core.State.{Kernel}
use ece_354_real_time_operat.Strings.{text, str_copy}
use ece_354_real_time_operat.Strings.Copies.{str_copy_lem}
use ece_354_real_time_operat.Strings.Texts.{all_live, text-IsEnd}
use ece_354_real_time_operat.Display.{written_out}
use ece_354_real_time_operat.Display.Outputs.{Spells, written_out-Spells}
use ece_354_real_time_operat.PriorityCommand.{
  Reply, invalid_command, invalid_pid, invalid_priority, cannot_change, successful, reply_chars,
  is_command, split_from, switch_round, cut_text, reply_round,
}

reply_live : (r : Reply) → all_live (reply_chars r) ≡ true
reply_live invalid_command = refl
reply_live invalid_pid = refl
reply_live invalid_priority = refl
reply_live cannot_change = refl
reply_live successful = refl

reply_short : (r : Reply) → length (reply_chars r) < 47
reply_short invalid_command = omega arith
reply_short invalid_pid = omega arith
reply_short invalid_priority = omega arith
reply_short cannot_change = omega arith
reply_short successful = omega arith

-- A text that reads as the list and then NUL spells it.
Spells-text :
    (msg : ℕ → ℕ) (i : ℕ) (cs : List ℕ)
    → all_live cs ≡ true
    → ((j : ℕ) → j ≤ length cs → msg (i + j) ≡ text cs j)
    → Spells msg i cs
Spells-text msg i [] all same = let e : i + 0 ≡ i = omega arith in rw e at (same 0 (omega arith))
Spells-text msg i (c ∷ cs) all same =
    let e : i + 0 ≡ i = omega arith in
    (
      rw e at (same 0 (omega arith)),
      ground arith,
      Spells-text msg (i + 1) cs (ground arith) λ j h.
          let e' : i + suc j ≡ i + 1 + j = omega arith in rw e' at (same (suc j) (omega arith)),
    )

-- The search for the blank writes nothing but a NUL.
split_from-cut :
    (fuel i : ℕ) (msg : ℕ → ℕ) (j : ℕ)
    → msg j ≡ 0
    → (r : ℕ × (ℕ → ℕ)) → split_from fuel i msg ≡ some r
    → r.1 j ≡ 0
unfolding split_from
split_from-cut zero i msg j gone r e = absurd (cc)
split_from-cut (suc fuel) i msg j gone r e = elim (Bool-cases (msg i == 0)) [
  | inl end ↦ let e' = rw end at e in let same : (i, msg) ≡ r = cc in rw (← same) gone
  | inr more ↦ elim (Bool-cases (msg i == 0x20)) [
    | inl blank ↦
        let e' = rw (more, blank) at e in
        let same : (i, update msg i 0) ≡ r = cc in rw (← same) (ground arith)
    | inr other ↦ split_from-cut fuel (i + 1) msg j gone r (rw (more, other) at e)
  ]
]

-- What is read of the command behind a place where it is NUL.
cut_text-cut :
    (fuel : ℕ) (msg : ℕ → ℕ) (k : Kernel) (x : Reply × Kernel)
    → switch_round fuel msg k ≡ some x
    → Returns (λ cut. (j : ℕ) → msg j ≡ 0 → cut j ≡ 0) (cut_text fuel msg)
unfolding cut_text switch_round
cut_text-cut fuel msg k x e = elim (Bool-cases (not (is_command msg))) [
  | inl other ↦ rw other (returns (λ j gone. gone))
  | inr named ↦ rw named (found (split_from fuel 3 msg) refl named)
]
  where
    found :
        (o : Option (ℕ × (ℕ → ℕ)))
        → split_from fuel 3 msg ≡ o
        → not (is_command msg) ≡ false
        → Returns (λ cut. (j : ℕ) → msg j ≡ 0 → cut j ≡ 0) (do r ← split_from fuel 3 msg; some r.1)
    found none e' named = absurd (let h = rw (named, e') at e in cc)
    found (some r) e' named = rw e' (returns (λ j gone. split_from-cut fuel 3 msg j gone r e'))

copied_reply :
    (fuel : ℕ) (reply : Reply) (cut : ℕ → ℕ)
    → 47 < fuel
    → ((j : ℕ) → length (reply_chars reply) ≤ j → cut j ≡ 0)
    → Returns
        (λ t. written_out fuel t ≡ some (reply_chars reply))
        (str_copy fuel (text (reply_chars reply)) cut)
copied_reply fuel reply cut enough short =
    let n = length (reply_chars reply) in
    let ends = text-IsEnd (reply_chars reply) (reply_live reply) in
    let low = reply_short reply in
    mono (str_copy_lem fuel n (text (reply_chars reply)) cut ends (omega arith)) λ t same.
      written_out-Spells fuel t (reply_chars reply)
        (Spells-text t 0 (reply_chars reply) (reply_live reply) λ j h.
          let start : 0 + j ≡ j = omega arith in
          rw start (
            same j ∙ elim (Bool-cases (ltb j n)) [
              | inl inside ↦ rw inside refl
              | inr behind ↦
                  let at_end : j ≡ n = ground arith in
                  rw behind
                    (short j (omega arith) ∙ sym (ap (text (reply_chars reply)) at_end ∙ ends.nul))
            ]))
        (omega arith)

-- If a round of priority_switch_command_handler gives a reply, with fuel enough for the longest one,
-- and the text of the command is no longer than the reply, the display gets the text of the reply
-- and nothing else.
pub reply_round-written :
    (fuel : ℕ) (msg : ℕ → ℕ) (k : Kernel) (x : Reply × Kernel)
    → switch_round fuel msg k ≡ some x
    → 47 < fuel
    → ((j : ℕ) → length (reply_chars x.0) ≤ j → msg j ≡ 0)
    → Returns
        (λ (t, k'). (written_out fuel t ≡ some (reply_chars x.0)) × (k' ≡ x.1))
        (reply_round fuel msg k)
unfolding reply_round
reply_round-written fuel msg k x e enough short = rw e (
    bind (cut_text-cut fuel msg k x e) λ cut same.
      bind (copied_reply fuel x.0 cut enough (λ j h. same j (short j h)))
        λ t shown. returns (shown, refl))
