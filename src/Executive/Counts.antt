-- ===== src/Executive/Counts.antt =====
-- How often an envelope stands in a list of messages: what the mailboxes and the pool of blocks have
-- in common.
use ece_354_real_time_operat.Base.{
  ℕ, suc, ◌+◌, ◌≤◌, ◌<◌, ◌≡◌, refl, sym, ap, ◌∙◌, ◌≢◌, inl, inr, Bool, true, false, List, [], ◌∷◌,
  ◌++◌, arith, ◌==◌, if◌then◌else◌, Bool-cases,
}
use ece_354_real_time_operat.Chain.{has, length, erase}
use ece_354_real_time_operat.Chain.Bound.{length-erase}
use ece_354_real_time_operat.Messaging.Boxes.{Box}
use ece_354_real_time_operat.Messaging.Boxes.Compact.{Compact}
use ece_354_real_time_operat.Messaging.Boxes.Takes.{drop_first}
use ece_354_real_time_operat.Messaging.Scans.{passing, failing}

unfoldable pub count : ℕ → List ℕ → ℕ
count e [] = 0
count e (x ∷ xs) = let rest = count e xs in if e == x then suc rest else rest

pub count-append : (e : ℕ) (xs ys : List ℕ) → count e (xs ++ ys) ≡ count e xs + count e ys
unfolding count
count-append e [] ys = omega arith
count-append e (x ∷ xs) ys =
    let h = count-append e xs ys in
    elim (Bool-cases (e == x)) [ inl i ↦ rw i (omega arith) | inr o ↦ rw o h ]

pub count-one : (e x : ℕ) → count e (x ∷ []) ≤ 1
unfolding count
count-one e x = elim (Bool-cases (e == x)) [
  | inl i ↦ rw i (omega arith)
  | inr o ↦ rw o (omega arith)
]

pub count_other : (e x : ℕ) → e ≢ x → count e (x ∷ []) ≡ 0
unfolding count
count_other e x ne = let o : (e == x) ≡ false = ground arith in rw o refl

-- Each element of a list passes the test or fails it.
pub count-passing :
    (e : ℕ) (test : ℕ → Bool) (xs : List ℕ)
    → count e (passing test xs) + count e (failing test xs) ≡ count e xs
unfolding count passing failing
count-passing e test [] = omega arith
count-passing e test (x ∷ xs) =
    let h = count-passing e test xs in
    elim (Bool-cases (test x)) [
      | inl t ↦ rw t (elim (Bool-cases (e == x)) [ inl i ↦ rw i (omega arith) | inr o ↦ rw o h ])
      | inr t ↦ rw t (elim (Bool-cases (e == x)) [ inl i ↦ rw i (omega arith) | inr o ↦ rw o h ])
    ]

pub length-failing : (test : ℕ → Bool) (xs : List ℕ) → length (failing test xs) ≤ length xs
unfolding failing
length-failing test [] = omega arith
length-failing test (x ∷ xs) =
    let h = length-failing test xs in
    elim (Bool-cases (test x)) [ inl e ↦ rw e (omega arith) | inr e ↦ rw e (omega arith) ]

pub count-drop_first :
    (e : ℕ) (test : ℕ → Bool) (xs : List ℕ) → count e (drop_first test xs) ≤ count e xs
unfolding count drop_first
count-drop_first e test [] = omega arith
count-drop_first e test (x ∷ xs) =
    let h = count-drop_first e test xs in
    elim (Bool-cases (test x)) [
      | inl t ↦
          rw t
            (elim (Bool-cases (e == x)) [ inl i ↦ rw i (omega arith) | inr o ↦ rw o (omega arith) ])
      | inr t ↦ rw t (elim (Bool-cases (e == x)) [ inl i ↦ rw i (omega arith) | inr o ↦ rw o h ])
    ]

count-has : (e : ℕ) (xs : List ℕ) → 0 < count e xs → has e xs ≡ true
unfolding count
count-has e [] h = absurd (omega arith)
count-has e (x ∷ xs) h = elim (Bool-cases (e == x)) [
  | inl i ↦ ground arith
  | inr o ↦ let r = count-has e xs (rw o at h) in ground arith
]

count-erase :
    (e x : ℕ) (xs : List ℕ) → has x xs ≡ true → count e xs ≡ count e (x ∷ []) + count e (erase x xs)
unfolding count erase
count-erase e x [] i = cc
count-erase e x (y ∷ ys) i = elim (Bool-cases (x == y)) [
  | inl hit ↦
      let same : x ≡ y = ground arith in
      let hit' : (y == y) ≡ true = ground arith in
      rw (same, hit')
        (elim (Bool-cases (e == y)) [ inl i ↦ rw i (omega arith) | inr o ↦ rw o (omega arith) ])
  | inr miss ↦
      let h = count-erase e x ys (ground arith) in
      rw miss (elim (Bool-cases (e == y)) [ inl i ↦ rw i (omega arith) | inr o ↦ rw o h ])
]

-- A list that has no element more often than another one is no longer.
pub count-length : (xs ys : List ℕ) → ((e : ℕ) → count e xs ≤ count e ys) → length xs ≤ length ys
unfolding count
count-length [] ys h = omega arith
count-length (x ∷ xs) ys h =
    let self : (x == x) ≡ true = ground arith in
    let here_before = h x in
    let here = rw self at here_before in
    let inside = count-has x ys (omega arith) in
    let rest = count-length xs (erase x ys) λ e.
      let split = count-erase e x ys inside in
      let before = h e in
      elim (Bool-cases (e == x)) [
        | inl i ↦ let b = rw i at before in let s = rw i at split in omega arith
        | inr o ↦ let b = rw o at before in let s = rw o at split in omega arith
      ] in
    let one = length-erase x ys inside in omega arith

-- An envelope that stands in no place of an array is not among the messages of it.
pub Compact-count :
    (box : Box) (i limit e : ℕ) (xs : List ℕ)
    → Compact box i xs
    → i + length xs ≤ limit
    → ((j : ℕ) → j < limit → box j ≢ e)
    → count e xs ≡ 0
unfolding count
Compact-count box i limit e [] c room out = refl
Compact-count box i limit e (x ∷ xs) (at, live, rest) room out =
    let other : (e == x) ≡ false = let ne = out i (omega arith) in ground arith in
    let h = Compact-count box (suc i) limit e xs rest (omega arith) out in rw other h

-- A place behind the messages is empty.
pub Compact-short :
    (box : Box) (i j : ℕ) (xs : List ℕ) → Compact box i xs → box j ≡ 0 → i ≤ j → i + length xs ≤ j
Compact-short box i j [] c e h = omega arith
Compact-short box i j (x ∷ xs) (at, live, rest) e h = elim (Bool-cases (i == j)) [
  | inl same ↦ let same' : i ≡ j = ground arith in absurd (live (sym at ∙ (ap box same' ∙ e)))
  | inr other ↦ let r = Compact-short box (suc i) j xs rest e (ground arith) in omega arith
]
