-- ===== src/Messaging/Boxes/Spans.antt =====
-- The part of a mailbox that a loop has passed already.
use ece_354_real_time_operat.Base.{
  ℕ, suc, ◌+◌, ◌<◌, ◌≡◌, refl, ◌∙◌, ◌≢◌, List, [], ◌∷◌, ◌++◌, arith,
}
use ece_354_real_time_operat.Chain.{length}
use ece_354_real_time_operat.Messaging.Boxes.{Box}
use ece_354_real_time_operat.Messaging.Boxes.Compact.{Compact}

-- The places from `i` up to `n`, without `n`, hold the envelopes `xs` in order.
abbrev pub Span : Box → ℕ → ℕ → List ℕ → Type 0
Span box i n [] = i ≡ n
Span box i n (x ∷ xs) = (box i ≡ x) × (x ≢ 0) × Span box (suc i) n xs

pub Span-Compact :
    (box : Box) (i n : ℕ) (xs ys : List ℕ)
    → Span box i n xs
    → Compact box n ys
    → Compact box i (xs ++ ys)
Span-Compact box i n [] ys e c = rw e c
Span-Compact box i n (x ∷ xs) ys (at, live, rest) c =
    (at, live, Span-Compact box (suc i) n xs ys rest c)

pub Span-end :
    (box : Box) (i n x : ℕ) (xs : List ℕ)
    → Span box i n xs
    → box n ≡ x
    → x ≢ 0
    → Span box i (suc n) (xs ++ (x ∷ []))
Span-end box i n x [] e at live = (rw e at, live, rw e refl)
Span-end box i n x (y ∷ ys) (at', live', rest) at live =
    (at', live', Span-end box (suc i) n x ys rest at live)

pub Span-length : (box : Box) (i n : ℕ) (xs : List ℕ) → Span box i n xs → n ≡ i + length xs
Span-length box i n [] e = omega arith
Span-length box i n (x ∷ xs) (at, live, rest) =
    let e = Span-length box (suc i) n xs rest in omega arith

pub Span-other :
    (box box' : Box) (i n : ℕ) (xs : List ℕ)
    → ((j : ℕ) → j < n → box' j ≡ box j)
    → Span box i n xs
    → Span box' i n xs
Span-other box box' i n [] same e = e
Span-other box box' i n (x ∷ xs) same (at, live, rest) =
    let e = Span-length box (suc i) n xs rest in
    (same i (omega arith) ∙ at, live, Span-other box box' (suc i) n xs same rest)

-- The last envelope of a mailbox.
pub Compact-last :
    (box : Box) (i x : ℕ) (xs : List ℕ) → Compact box i (xs ++ (x ∷ [])) → box (i + length xs) ≡ x
Compact-last box i x [] (at, live, rest) = let e : i + 0 ≡ i = omega arith in rw e at
Compact-last box i x (y ∷ ys) (at, live, rest) =
    let e : i + length (y ∷ ys) ≡ suc i + length ys = omega arith in
    rw e (Compact-last box (suc i) x ys rest)

pub length-end : (xs : List ℕ) (x : ℕ) → length (xs ++ (x ∷ [])) ≡ suc (length xs)
length-end [] x = refl
length-end (y ∷ ys) x = let e = length-end ys x in omega arith
