-- ===== src/Keyboard/Buffers.antt =====
-- The buffer of kcd: it holds at most 64 characters, and its text ends.
use ece_354_real_time_operat.Base.{
  ℕ, zero, suc, ◌+◌, ◌≤◌, ◌<◌, ◌≡◌, ◌∙◌, ◌≢◌, inl, inr, ◌&&◌, arith, ◌==◌, leb, ltb, if◌then◌else◌,
  update, Bool-cases,
}
use ece_354_real_time_operat.Strings.Copies.{IsEnd}
use ece_354_real_time_operat.Keyboard.{
  nul, percent, kcd_buffer_size, Kcd, reset_from, reset_kcd_buffer, collect,
}
use ece_354_real_time_operat.Keyboard.Commands.{AllText}

reset_from_lem :
    (rounds i j : ℕ) (buffer : ℕ → ℕ)
    → reset_from rounds i buffer j ≡ (if leb i j && ltb j (i + rounds) then nul else buffer j)
unfolding reset_from
reset_from_lem zero i j buffer = ground arith
reset_from_lem (suc rounds) i j buffer =
    reset_from_lem rounds (i + 1) j (update buffer i nul) ∙ ground arith

-- The buffer is cleared; what lies behind it is not touched.
pub reset_kcd_buffer_lem :
    (j : ℕ) (buffer : ℕ → ℕ)
    → reset_kcd_buffer buffer j ≡ (if ltb j kcd_buffer_size then nul else buffer j)
reset_kcd_buffer_lem j buffer = reset_from_lem kcd_buffer_size 0 j buffer ∙ ground arith

-- The buffer of 64 characters holds `kbuf_size` of them, and NUL behind them. `after` is what lies
-- behind the buffer, where the first command has been allocated: it begins with a NUL.
pub record IsBuffered (after : ℕ → ℕ) (k : Kcd) : Type 0 where
  pub within : k.kbuf_size ≤ kcd_buffer_size
  pub rest : (i : ℕ) → k.kbuf_size ≤ i → i < kcd_buffer_size → k.buffer i ≡ nul
  pub behind : (i : ℕ) → kcd_buffer_size ≤ i → k.buffer i ≡ after i
  pub stop : after kcd_buffer_size ≡ nul
  pub texts : AllText k.cmds

pub collect-IsBuffered :
    {after : ℕ → ℕ} {k : Kcd} (c : ℕ) → IsBuffered after k → IsBuffered after (collect c k)
unfolding collect
collect-IsBuffered {k = k} c v = elim (Bool-cases (leb kcd_buffer_size k.kbuf_size)) [
  | inl full ↦ rw full v
  | inr free ↦ elim (Bool-cases (k.buffer 0 == percent)) [
    | inl line ↦
        rw (free, line)
          (record {
            within = ground arith;
            rest = λ i h h'. let e = v.rest i (omega arith) h' in ground arith;
            behind = λ i h. let e = v.behind i h in ground arith;
            stop = v.stop;
            texts = v.texts;
          })
    | inr other ↦ rw (free, other) v
  ]
]

pub reset-IsBuffered :
    {after : ℕ → ℕ} {k : Kcd}
    → IsBuffered after k
    → IsBuffered after (record k { buffer = reset_kcd_buffer k.buffer; kbuf_size = 0 })
reset-IsBuffered {k = k} v = record {
  within = omega arith;
  rest = λ i h h'. let e = reset_kcd_buffer_lem i k.buffer in ground arith;
  behind = λ i h. let e = reset_kcd_buffer_lem i k.buffer in let e' = v.behind i h in ground arith;
  stop = v.stop;
  texts = v.texts;
}

pub start-IsBuffered :
    {after : ℕ → ℕ} {k : Kcd} (c : ℕ)
    → IsBuffered after k
    → IsBuffered after (record k { buffer = update (reset_kcd_buffer k.buffer) 0 c; kbuf_size = 1 })
start-IsBuffered {k = k} c v =
    let w = reset-IsBuffered v in
    record {
      within = omega arith;
      rest = λ i h h'. let e = w.rest i (omega arith) h' in ground arith;
      behind = λ i h. let e = w.behind i h in ground arith;
      stop = v.stop;
      texts = v.texts;
    }

-- The first NUL at or before a NUL.
pub first_nul : (n : ℕ) (f : ℕ → ℕ) → f n ≡ nul → (m : ℕ) × (m ≤ n) × IsEnd f m
first_nul zero f e = (0, omega arith, record { nul = e; before = λ i h. absurd (omega arith) })
first_nul (suc n) f e = elim (Bool-cases (f 0 == nul)) [
  | inl at ↦ (0, omega arith, record { nul = ground arith; before = λ i h. absurd (omega arith) })
  | inr after ↦
      let (m, h, v) = first_nul n (λ i. f (suc i)) e in
      (suc m, omega arith, record { nul = v.nul; before = below m v (λ e'. ground arith) })
]
  where
    below : (m : ℕ) → IsEnd (λ i. f (suc i)) m → f 0 ≢ 0 → (i : ℕ) → i < suc m → f i ≢ 0
    below m v live zero h = live
    below m v live (suc i) h = v.before i (omega arith)

-- The text in the buffer ends, at the latest at the first byte behind it.
pub IsBuffered-IsEnd :
    {after : ℕ → ℕ} {k : Kcd}
    → IsBuffered after k
    → (m : ℕ) × (m ≤ kcd_buffer_size) × IsEnd k.buffer m
IsBuffered-IsEnd {k = k} v =
    first_nul kcd_buffer_size k.buffer (v.behind kcd_buffer_size (omega arith) ∙ v.stop)
