-- ===== src/Strings/Texts.antt =====
-- Texts given as lists of characters.
use ece_354_real_time_operat.Base.{
  ℕ, zero, suc, ◌≤◌, ◌<◌, ◌≡◌, ◌≢◌, refl, sym, ap, ◌∙◌, inl, inr, some, Bool, true, ◌&&◌, List, [],
  ◌∷◌, arith, ltb, Bool-cases, Returns-some,
}
use mathlib.Core.Path.{fun_ext}
use ece_354_real_time_operat.Chain.{length}
use ece_354_real_time_operat.Strings.{text, str_copy}
use ece_354_real_time_operat.Strings.Copies.{IsEnd, str_copy_lem}

pub text_behind : (cs : List ℕ) (j : ℕ) → length cs ≤ j → text cs j ≡ 0
text_behind [] j h = refl
text_behind (c ∷ cs) zero h = absurd (omega arith)
text_behind (c ∷ cs) (suc j) h = text_behind cs j (omega arith)

-- No character is NUL.
abbrev pub all_live : List ℕ → Bool
all_live [] = true
all_live (c ∷ cs) = ltb 0 c && all_live cs

text_live : (cs : List ℕ) (j : ℕ) → all_live cs ≡ true → j < length cs → text cs j ≢ 0
text_live [] j all h = absurd (omega arith)
text_live (c ∷ cs) zero all h = ground arith
text_live (c ∷ cs) (suc j) all h = text_live cs j (ground arith) (omega arith)

pub text-IsEnd : (cs : List ℕ) → all_live cs ≡ true → IsEnd (text cs) (length cs)
text-IsEnd cs all = record {
  nul = text_behind cs (length cs) (omega arith);
  before = λ i h. text_live cs i all h;
}

-- A copy of a text into a cleared block is the text.
pub text-copied :
    (fuel : ℕ) (cs : List ℕ)
    → all_live cs ≡ true
    → length cs < fuel
    → str_copy fuel (text cs) (λ i. 0) ≡ some (text cs)
text-copied fuel cs all fits =
    let v : IsEnd (text cs) (length cs) = record {
      nul = text_behind cs (length cs) (omega arith);
      before = λ i h. text_live cs i all h;
    } in
    let (r, e, same) = Returns-some (str_copy_lem fuel (length cs) (text cs) (λ i. 0) v fits) in
    e
    ∙ ap some (
        fun_ext λ j. elim (Bool-cases (ltb j (length cs))) [
          | inl inside ↦ rw inside at (same j)
          | inr behind ↦ (rw behind at (same j)) ∙ sym (text_behind cs j (ground arith))
        ])
