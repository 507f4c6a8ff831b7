-- ===== src/Strings/Copies.antt =====
-- str_copy copies the characters before the first NUL, and leaves the rest of the destination.
use ece_354_real_time_operat.Base.{
  ℕ, zero, suc, ◌+◌, ◌<◌, ◌≡◌, ◌≢◌, inl, inr, true, false, subst, arith, ◌==◌, leb, ltb, ◌&&◌,
  if◌then◌else◌, update, Bool-cases, Returns, returns, mono,
}
use ece_354_real_time_operat.Strings.{copy_from, str_copy}

-- The first NUL of the text stands at `n`.
pub record IsEnd (from : ℕ → ℕ) (n : ℕ) : Type 0 where
  pub nul : from n ≡ 0
  pub before : (i : ℕ) → i < n → from i ≢ 0

copy_from_lem :
    (fuel d i n : ℕ) (from to : ℕ → ℕ)
    → n ≡ i + d
    → IsEnd from n
    → d < fuel
    → Returns
        (λ r. (j : ℕ) → r j ≡ (if leb i j && ltb j n then from j else to j))
        (copy_from fuel i from to)
unfolding copy_from
copy_from_lem zero d i n from to at v enough = absurd (omega arith)
copy_from_lem (suc fuel) zero i n from to at v enough =
    let here : n ≡ i = omega arith in
    let nul : from i ≡ 0 = subst (λ m. from m ≡ 0) here v.nul in
    let e : (from i == 0) ≡ true = ground arith in rw e (returns (λ j. ground arith))
copy_from_lem (suc fuel) (suc d) i n from to at v enough =
    let go_on : (from i == 0) ≡ false = let more = v.before i (omega arith) in ground arith in
    rw go_on (
      mono
        (copy_from_lem fuel d (i + 1) n from (update to i (from i)) (omega arith) v (omega arith))
        λ r same j. elim (Bool-cases (i == j)) [
          | inl e ↦ let e' : i ≡ j = ground arith in ground (arith, same j)
          | inr e ↦ ground (arith, same j)
        ])

-- Of a text whose first NUL stands at `n`, and with more than `n` rounds of fuel, str_copy
-- returns with the `n` characters before it at the start of the destination, and every other
-- place of the destination as it was, that of the NUL too.
pub str_copy_lem :
    (fuel n : ℕ) (from to : ℕ → ℕ)
    → IsEnd from n
    → n < fuel
    → Returns (λ r. (j : ℕ) → r j ≡ (if ltb j n then from j else to j)) (str_copy fuel from to)
unfolding str_copy
str_copy_lem fuel n from to v enough =
    mono (copy_from_lem fuel n 0 n from to (omega arith) v enough)
      λ r same j. ground (arith, same j)
