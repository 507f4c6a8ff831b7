-- ===== src/Core/Interrupts/Nesting.antt =====
-- Critical sections nest: interrupts are off exactly inside of one, and leaving it restores what was.
use ece_354_real_time_operat.Base.{
  ℕ, zero, suc, ◌+◌, ◌-◌, ◌≡◌, refl, sym, ap, ◌∙◌, inl, inr, true, arith, ◌==◌, ltb, Bool-cases,
}
use ece_354_real_time_operat.Core.State.{Atomic, Kernel}
use ece_354_real_time_operat.Core.Interrupts.{set_mask, atomic, atomic_up, atomic_down}

-- Interrupts are masked exactly while the counter is positive.
abbrev pub IsMasked : Atomic → Type 0
IsMasked t = t.masked ≡ ltb 0 t.status

up_status : (t : Atomic) → (atomic 1 t).status ≡ t.status + 1
unfolding atomic set_mask
up_status t = elim (Bool-cases (t.status + 1 == 0)) [
  | inl e ↦ absurd (ground arith)
  | inr e ↦
      rw e (elim (Bool-cases (t.status + 1 == 1)) [ inl e' ↦ rw e' refl | inr e' ↦ rw e' refl ])
]

down_status : (t : Atomic) → (atomic 0 t).status ≡ t.status - 1
unfolding atomic set_mask
down_status t = elim (Bool-cases (t.status - 1 == 0)) [
  | inl e ↦ rw e refl
  | inr e ↦
      rw e (elim (Bool-cases (t.status - 1 == 1)) [ inl e' ↦ rw e' refl | inr e' ↦ rw e' refl ])
]

up_masked : (t : Atomic) → IsMasked t → (atomic 1 t).masked ≡ true
unfolding atomic set_mask
up_masked t v = elim (Bool-cases (t.status + 1 == 0)) [
  | inl e ↦ absurd (ground arith)
  | inr e ↦ rw e (elim (Bool-cases (t.status + 1 == 1)) [
    | inl e' ↦ rw e' refl
    | inr e' ↦ rw e' (ground arith)
  ])
]

down-IsMasked : (t : Atomic) → IsMasked t → IsMasked (atomic 0 t)
unfolding atomic set_mask
down-IsMasked t v = elim (Bool-cases (t.status - 1 == 0)) [
  | inl e ↦ rw e (ground arith)
  | inr e ↦ rw e (elim (Bool-cases (t.status - 1 == 1)) [
    | inl e' ↦ rw e' (ground arith)
    | inr e' ↦ rw e' (ground arith)
  ])
]

-- `n` calls of atomic_up, and `n` of atomic_down.
abbrev pub raised : ℕ → Kernel → Kernel
raised zero k = k
raised (suc n) k = raised n (atomic_up k)

abbrev pub lowered : ℕ → Kernel → Kernel
lowered zero k = k
lowered (suc n) k = lowered n (atomic_down k)

Atomic-ext : (s t : Atomic) → s.status ≡ t.status → s.masked ≡ t.masked → s ≡ t
Atomic-ext s t e f = λ i. record { status = e i; masked = f i }

atomic_down-up : (k : Kernel) → IsMasked k.atomic → atomic_down (atomic_up k) ≡ k
unfolding atomic_down atomic_up
atomic_down-up k v =
    let t = k.atomic in
    let counter : (atomic 0 (atomic 1 t)).status ≡ t.status =
      down_status (atomic 1 t) ∙ (ap (λ n. n - 1) (up_status t) ∙ omega arith) in
    let inside : IsMasked (atomic 1 t) =
      let s = up_status t in let m = up_masked t v in ground arith in
    let mask = down-IsMasked (atomic 1 t) inside in
    ap (λ a. record k { atomic = a })
      (Atomic-ext (atomic 0 (atomic 1 t)) t counter (mask ∙ (ap (ltb 0) counter ∙ sym v)))

raised-atomic_up : (n : ℕ) (k : Kernel) → raised n (atomic_up k) ≡ atomic_up (raised n k)
raised-atomic_up zero k = refl
raised-atomic_up (suc n) k = raised-atomic_up n (atomic_up k)

raised-IsMasked : (n : ℕ) (k : Kernel) → IsMasked k.atomic → IsMasked (raised n k).atomic
unfolding atomic_up
raised-IsMasked zero k v = v
raised-IsMasked (suc n) k v =
    let s = up_status k.atomic in
    let m = up_masked k.atomic v in raised-IsMasked n (atomic_up k) (ground arith)

-- Where interrupts are masked exactly while the counter is positive, `n` calls of atomic_up and then
-- `n` of atomic_down leave the kernel as it was, and after `n + 1` calls of atomic_up interrupts are
-- masked.
pub lowered-raised :
    (n : ℕ) (k : Kernel)
    → IsMasked k.atomic
    → (lowered n (raised n k) ≡ k) × ((raised (suc n) k).atomic.masked ≡ true)
unfolding atomic_up
lowered-raised zero k v = (refl, up_masked k.atomic v)
lowered-raised (suc n) k v =
    let within = raised-IsMasked n k v in
    (
      ap (λ x. lowered n (atomic_down x)) (raised-atomic_up n k)
          ∙ (ap (lowered n) (atomic_down-up (raised n k) within) ∙ (lowered-raised n k v).0),
      ap (λ x. x.atomic.masked) (raised-atomic_up (suc n) k)
          ∙ up_masked (raised (suc n) k).atomic (raised-IsMasked (suc n) k v),
    )
