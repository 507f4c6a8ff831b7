-- ===== src/WallClock/Balance.antt =====
-- The wall clock keeps no block: all that it gets it sends, or gives back.
use ece_354_real_time_operat.Base.{
  ℕ, ◌+◌, ◌*◌, ◌≤◌, ◌<◌, ◌≡◌, Option-cases, subst, refl, sym, ◌∙◌, inl, inr, Bool, true, false,
  Option, none, some, List, [], ◌∷◌, arith, ◌==◌, ◌&&◌, Bool-cases, Returns, returns, bind,
}
use ece_354_real_time_operat.Chain.{length}
use ece_354_real_time_operat.Strings.{text}
use ece_354_real_time_operat.Strings.Copies.{IsEnd, str_copy_lem}
use ece_354_real_time_operat.Strings.Texts.{text-copied}
use ece_354_real_time_operat.Stress.Processes.{released, text_fuel, cleared_text}
use ece_354_real_time_operat.Executive.Counts.{count}
use ece_354_real_time_operat.WallClock.{
  Text, Envelope, Clock, type_wallclock_tick, error_check, get_msg_type, convert_to_dec,
  convert_to_ascii, out_hour, out_min, out_sec, set_clock, round, register_clock, ws_chars,
  wt_chars,
}
use ece_354_real_time_operat.WallClock.Time.{out_time_lem}
use ece_354_real_time_operat.WallClock.Runs.{IsTimeOfDay, round-IsSound}
use ece_354_real_time_operat.WallClock.Calls.{
  Receipt, content, show_time, order_tick, out_after, wallclock_round, wallclock_rounds,
  reset_clock, wallclock,
}
use ece_354_real_time_operat.WallClock.Counts.{
  blocks_requested, blocks_left, received_messages, IsEven, IsBalanced, IsBalanced-append,
  IsEven-IsBalanced, released-IsBalanced, registered-IsBalanced,
}

convert_to_ascii-IsEnd :
    (h m s : ℕ) (out : Text) → h < 24 → m < 60 → s < 60 → IsEnd (convert_to_ascii h m s out) 10
unfolding convert_to_ascii
convert_to_ascii-IsEnd h m s out small small' small'' = record {
  nul = ground arith;
  before = λ i low. ground arith;
}

set_clock-display : (now : ℕ) (msg : Text) (c : Clock) → (set_clock now msg c).display ≡ none
unfolding set_clock
set_clock-display now msg c = elim (Bool-cases (error_check msg)) [
  | inr e ↦ rw e refl
  | inl e ↦ elim (Option-cases (convert_to_dec msg c)) [
    | inl gone ↦ rw (e, gone) refl
    | inr (c1, set) ↦
        rw (e, set) (elim (Bool-cases c.clock_on) [ inl on ↦ rw on refl | inr off ↦ rw off refl ])
  ]
]

-- What goes to the display is a text of ten characters.
round-IsEnd :
    (now : ℕ) (out : Text) (msg : Option Envelope) (c : Clock) (shown : Text)
    → (round now out msg c).display ≡ some shown
    → IsEnd shown 10
unfolding round
round-IsEnd now out none c shown e = cc
round-IsEnd now out (some msg) c shown e = elim (Bool-cases (get_msg_type msg.text == 1)) [
  | inl h ↦ cc (sym (set_clock-display now msg.text c) ∙ (rw h at e))
  | inr h ↦ elim (Bool-cases (get_msg_type msg.text == 2)) [
    | inl h' ↦ cc (rw (h, h') at e)
    | inr h' ↦ elim (Bool-cases (msg.type == type_wallclock_tick && c.clock_on)) [
      | inl h'' ↦
          let (sum, small, small', small'') = out_time_lem now c in
          let ends =
            convert_to_ascii-IsEnd (out_hour now c) (out_min now c) (out_sec now c) out small small'
              small'' in
          let same : convert_to_ascii (out_hour now c) (out_min now c) (out_sec now c) out ≡ shown =
            cc (rw (h, h', h'') at e) in
          subst (λ t. IsEnd t 10) same ends
      | inr h'' ↦ cc (rw (h, h', h'') at e)
    ]
  ]
]

show_time-IsEven :
    (display : Option Text) (grants : List ℕ)
    → ((shown : Text) → display ≡ some shown → IsEnd shown 10)
    → 1 ≤ length grants
    → Returns
        (λ (calls, rest). IsEven calls × (length grants ≤ 1 + length rest))
        (show_time display grants)
unfolding show_time blocks_left blocks_requested
show_time-IsEven none grants ends enough = returns (λ b. refl, omega arith)
show_time-IsEven (some out) [] ends enough = absurd (omega arith)
show_time-IsEven (some out) (send_msg ∷ grants) ends enough =
    bind (str_copy_lem text_fuel 10 out cleared_text (ends out refl) (omega arith))
      λ msg same. returns (λ b. refl, omega arith)

order_tick-IsEven :
    (delayed : Bool) (grants : List ℕ)
    → 1 ≤ length grants
    → Returns
        (λ (calls, rest). IsEven calls × (length grants ≤ 1 + length rest))
        (order_tick delayed grants)
unfolding order_tick blocks_left blocks_requested
order_tick-IsEven false grants enough = returns (λ b. refl, omega arith)
order_tick-IsEven true [] enough = absurd (omega arith)
order_tick-IsEven true (delay_msg ∷ grants) enough = returns (λ b. refl, omega arith)

wallclock_round-IsBalanced :
    (e : Receipt) (out : Text) (c : Clock) (grants : List ℕ)
    → 2 ≤ length grants
    → Returns
        (λ (calls, rest). IsBalanced (e.msg ∷ []) calls × (length grants ≤ 2 + length rest))
        (wallclock_round e out c grants)
unfolding wallclock_round
wallclock_round-IsBalanced e out c grants enough =
    bind
      (show_time-IsEven (round e.time out (content e) c).display grants
        (round-IsEnd e.time out (content e) c) (omega arith))
      λ (calls, rest) (v, fewer).
        bind (order_tick-IsEven (round e.time out (content e) c).delayed rest (omega arith))
          λ (calls', rest') (v', fewer'). returns (
            IsBalanced-append [] (e.msg ∷ []) calls (released e.msg ∷ calls')
                (IsEven-IsBalanced calls v) (released-IsBalanced e.msg calls' v'),
            omega arith,
          )

wallclock_rounds-IsBalanced :
    (inbox : List Receipt) (out : Text) (c : Clock) (grants : List ℕ)
    → IsTimeOfDay c
    → 2 * length (received_messages inbox) ≤ length grants
    → Returns
        (λ (calls, c'). IsBalanced (received_messages inbox) calls × IsTimeOfDay c')
        (wallclock_rounds inbox out c grants)
unfolding wallclock_rounds received_messages blocks_requested blocks_left count
wallclock_rounds-IsBalanced [] out c grants v enough = returns (λ b. refl, v)
wallclock_rounds-IsBalanced (e ∷ inbox) out c grants v enough =
    let r = round e.time out (content e) c in
    bind (wallclock_round-IsBalanced e out c grants (omega arith)) λ (calls, rest) (w, fewer).
      bind
        (wallclock_rounds-IsBalanced inbox (out_after r.display out) r.clock rest
          (round-IsSound e.time out (content e) c v).in_day (omega arith))
        λ (calls', c') (w', v').
          returns (IsBalanced-append (e.msg ∷ []) (received_messages inbox) calls calls' w w', v')

-- With two blocks granted for the registration and two for each message that it receives, the
-- process handles all its messages: each block that it is granted and each message that it
-- receives it sends or gives back, as many times as it got it, and its clock holds a time of day at
-- the end.
pub wallclock-IsBalanced :
    (inbox : List Receipt) (out : Text) (base_time : ℕ) (grants : List ℕ)
    → 2 + 2 * length (received_messages inbox) ≤ length grants
    → Returns
        (λ (calls, c). IsBalanced (received_messages inbox) calls × IsTimeOfDay c)
        (wallclock inbox out base_time grants)
unfolding wallclock register_clock
wallclock-IsBalanced inbox out base_time [] enough = absurd (omega arith)
wallclock-IsBalanced inbox out base_time (msg1 ∷ []) enough = absurd (omega arith)
wallclock-IsBalanced inbox out base_time (msg1 ∷ msg2 ∷ grants) enough =
    rw
      (
        text-copied text_fuel ws_chars refl (omega arith),
        text-copied text_fuel wt_chars refl (omega arith),
      )
      (bind
        (wallclock_rounds-IsBalanced inbox out (reset_clock base_time) grants
          (record { hour = omega arith; min = omega arith; sec = omega arith }) (omega arith))
        λ (calls, c) (v, w). returns (
          registered-IsBalanced msg1 msg2 (text ws_chars) (text wt_chars) (received_messages inbox)
              calls v,
          w,
        ))
