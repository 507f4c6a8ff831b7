-- ===== src/Executive/Taken.antt =====
-- What counts once among the messages and leaves them is in neither array, and one address names one
-- block.
use ece_354_real_time_operat.Base.{
  ℕ, suc, ◌+◌, ◌-◌, ◌*◌, ◌≤◌, ◌<◌, ◌≡◌, refl, sym, ap, ◌∙◌, ◌≢◌, inl, inr, Bool, true, false, List,
  [], ◌∷◌, arith, ◌==◌, Bool-cases,
}
use ece_354_real_time_operat.Chain.{Ptr, has, Chain, Chain-live}
use ece_354_real_time_operat.Chain.Find.{find_first}
use ece_354_real_time_operat.Memory.State.{Memory, mem_block_size, IsPool}
use ece_354_real_time_operat.Messaging.Boxes.{Box}
use ece_354_real_time_operat.Messaging.Boxes.Compact.{Compact}
use ece_354_real_time_operat.Messaging.Boxes.Takes.{drop_first}
use ece_354_real_time_operat.Executive.{addresses, IsOut}
use ece_354_real_time_operat.Executive.Counts.{count}
use ece_354_real_time_operat.System.{System}

-- An envelope that does not count among the messages stands in no place of the array.
count-out :
    (box : Box) (i e : ℕ) (xs : List ℕ)
    → Compact box i xs
    → e ≢ 0
    → count e xs ≡ 0
    → (j : ℕ) → i ≤ j
    → box j ≢ e
unfolding count
count-out box i e [] c live none_there j h = λ e'. live (sym e' ∙ c j h)
count-out box i e (x ∷ xs) (at, full, rest) live none_there j h = elim (Bool-cases (e == x)) [
  | inl hit ↦ absurd (let n = rw hit at none_there in omega arith)
  | inr miss ↦ elim (Bool-cases (i == j)) [
    | inl same ↦ λ e'.
        let same' : i ≡ j = ground arith in
        let this : x ≡ e = sym at ∙ (ap box same' ∙ e') in ground arith
    | inr other ↦ count-out box (suc i) e xs rest live (rw miss at none_there) j (ground arith)
  ]
]

pub find_first-drop_first :
    (test : ℕ → Bool) (xs : List ℕ) (e : ℕ)
    → e ≢ 0
    → e ≡ find_first test xs
    → count e xs ≡ suc (count e (drop_first test xs))
unfolding find_first drop_first count
find_first-drop_first test [] e live at = absurd (live at)
find_first-drop_first test (x ∷ xs) e live at = elim (Bool-cases (test x)) [
  | inl hit ↦
      let same : e ≡ x = rw hit at at in
      let self : (e == x) ≡ true = ground arith in rw (hit, self) refl
  | inr miss ↦
      let h = find_first-drop_first test xs e live (rw miss at at) in
      rw miss (elim (Bool-cases (e == x)) [ inl i ↦ rw i (ap suc h) | inr o ↦ rw o h ])
]

-- The blocks of the pool lie at different addresses.
pub address_unique :
    {m : Memory} {xs ys : List Ptr} (v : IsPool m xs ys) (p q : Ptr)
    → 0 < p
    → p < 31
    → 0 < q
    → q < 31
    → m.start_block p ≡ m.start_block q
    → p ≡ q
address_unique {m} v p q live low live' low' e =
    let at = v.address p live low in
    let at' = v.address q live' low' in
    let h : m.memory_block_start + (p - 1) * mem_block_size
        ≡ m.memory_block_start + (q - 1) * mem_block_size =
      sym at ∙ (e ∙ at') in
    omega arith

module _ {m : Memory} {xs ys : List Ptr} (v : IsPool m xs ys) where
  pub used_low : (p : Ptr) → has p ys ≡ true → (0 < p) × (p < 31)
  used_low p u =
      let dead = Chain-live m.next m.used ys v.used in
      let low = v.small_used p u in let live : 0 < p = ground arith in (live, low)

  pub available_low : (p : Ptr) → has p xs ≡ true → (0 < p) × (p < 31)
  available_low p u =
      let dead = Chain-live m.next m.available xs v.available in
      let low = v.small_available p u in let live : 0 < p = ground arith in (live, low)

-- No block of the list lies at the address.
pub count_none :
    (start : Ptr → ℕ) (e : ℕ) (bs : List Ptr)
    → ((b : Ptr) → has b bs ≡ true → start b ≢ e)
    → count e (addresses start bs) ≡ 0
unfolding count
count_none start e [] out = refl
count_none start e (b ∷ bs) out =
    let other : (e == start b) ≡ false = let ne = out b (ground arith) in ground arith in
    rw other (count_none start e bs (λ c u. out c (ground arith)))

-- An address counts once at most among those of the blocks of a list.
pub count_once :
    (next : Ptr → Ptr) (start : Ptr → ℕ) (e p : ℕ) (bs : List Ptr)
    → Chain next p bs
    → ((b c : Ptr) → has b bs ≡ true → has c bs ≡ true → start b ≡ start c → b ≡ c)
    → count e (addresses start bs) ≤ 1
unfolding count
count_once next start e p [] c apart = omega arith
count_once next start e p (b ∷ bs) c apart = elim (Bool-cases (e == start b)) [
  | inl hit ↦
      let gone = count_none start e bs λ x u h.
        let same : x ≡ b = apart x b (ground arith) (ground arith) (ground arith) in
        cc (sym u ∙ (ap (λ z. has z bs) same ∙ c.2)) in
      rw hit (omega arith)
  | inr miss ↦
      rw miss (
        count_once next start e (next b) bs c.3
          (λ x y u w. apart x y (ground arith) (ground arith)))
]

-- What counts among the addresses is the address of a block.
pub count-block :
    (start : Ptr → ℕ) (e : ℕ) (bs : List Ptr)
    → 0 < count e (addresses start bs)
    → (b : Ptr) × (has b bs ≡ true) × (start b ≡ e)
unfolding count
count-block start e [] h = absurd (omega arith)
count-block start e (b ∷ bs) h = elim (Bool-cases (e == start b)) [
  | inl hit ↦ (b, ground arith, ground arith)
  | inr miss ↦ let (c, u, at) = count-block start e bs (rw miss at h) in (c, ground arith, at)
]

-- An envelope that is no message is in neither array.
pub none-IsOut :
    (s' : System) (e : ℕ) (xs ds : List ℕ)
    → Compact s'.mailbox 0 xs
    → Compact s'.delayed_mailbox 0 ds
    → e ≢ 0
    → count e xs + count e ds ≡ 0
    → IsOut s' e
none-IsOut s' e xs ds c c' live none_there = record {
  mailbox = λ i h. count-out s'.mailbox 0 e xs c live (omega arith) i (omega arith);
  delayed_mailbox =
      λ i h. count-out s'.delayed_mailbox 0 e ds c' live (omega arith) i (omega arith);
}
