-- ===== src/WallClock/Counts.antt =====
-- The blocks that a list of calls gets, and those that it sends or gives back.
use ece_354_real_time_operat.Base.{
  ℕ, ◌+◌, ◌≡◌, refl, ap, ◌∙◌, inl, inr, List, [], ◌∷◌, ◌++◌, arith, ◌==◌, Bool-cases,
}
use ece_354_real_time_operat.Pids.{kcd_pid}
use ece_354_real_time_operat.Keyboard.{type_register_cmd}
use ece_354_real_time_operat.Stress.Processes.{
  Call, requested, released, sent_text, sent_number, sent_on, sent_late, gave_way,
}
use ece_354_real_time_operat.Executive.Counts.{count, count-append}
use ece_354_real_time_operat.WallClock.{Text}
use ece_354_real_time_operat.WallClock.Calls.{Receipt}

-- The blocks that the process gets by request_memory_block.
unfoldable pub blocks_requested : List Call → List ℕ
blocks_requested [] = []
blocks_requested (requested b ∷ cs) = b ∷ blocks_requested cs
blocks_requested (released b ∷ cs) = blocks_requested cs
blocks_requested (sent_text to b type msg ∷ cs) = blocks_requested cs
blocks_requested (sent_number to b m ∷ cs) = blocks_requested cs
blocks_requested (sent_on to b ∷ cs) = blocks_requested cs
blocks_requested (sent_late to b type delay ∷ cs) = blocks_requested cs
blocks_requested (gave_way ∷ cs) = blocks_requested cs

-- The blocks that it sends or gives back.
unfoldable pub blocks_left : List Call → List ℕ
blocks_left [] = []
blocks_left (requested b ∷ cs) = blocks_left cs
blocks_left (released b ∷ cs) = b ∷ blocks_left cs
blocks_left (sent_text to b type msg ∷ cs) = b ∷ blocks_left cs
blocks_left (sent_number to b m ∷ cs) = b ∷ blocks_left cs
blocks_left (sent_on to b ∷ cs) = b ∷ blocks_left cs
blocks_left (sent_late to b type delay ∷ cs) = b ∷ blocks_left cs
blocks_left (gave_way ∷ cs) = blocks_left cs

-- The messages that it receives.
unfoldable pub received_messages : List Receipt → List ℕ
received_messages [] = []
received_messages (e ∷ inbox) = e.msg ∷ received_messages inbox

blocks_requested-append :
    (cs ds : List Call) → blocks_requested (cs ++ ds) ≡ blocks_requested cs ++ blocks_requested ds
unfolding blocks_requested
blocks_requested-append [] ds = refl
blocks_requested-append (requested b ∷ cs) ds = ap (λ l. b ∷ l) (blocks_requested-append cs ds)
blocks_requested-append (released b ∷ cs) ds = blocks_requested-append cs ds
blocks_requested-append (sent_text to b type msg ∷ cs) ds = blocks_requested-append cs ds
blocks_requested-append (sent_number to b m ∷ cs) ds = blocks_requested-append cs ds
blocks_requested-append (sent_on to b ∷ cs) ds = blocks_requested-append cs ds
blocks_requested-append (sent_late to b type delay ∷ cs) ds = blocks_requested-append cs ds
blocks_requested-append (gave_way ∷ cs) ds = blocks_requested-append cs ds

blocks_left-append : (cs ds : List Call) → blocks_left (cs ++ ds) ≡ blocks_left cs ++ blocks_left ds
unfolding blocks_left
blocks_left-append [] ds = refl
blocks_left-append (requested b ∷ cs) ds = blocks_left-append cs ds
blocks_left-append (released b ∷ cs) ds = ap (λ l. b ∷ l) (blocks_left-append cs ds)
blocks_left-append (sent_text to b type msg ∷ cs) ds = ap (λ l. b ∷ l) (blocks_left-append cs ds)
blocks_left-append (sent_number to b m ∷ cs) ds = ap (λ l. b ∷ l) (blocks_left-append cs ds)
blocks_left-append (sent_on to b ∷ cs) ds = ap (λ l. b ∷ l) (blocks_left-append cs ds)
blocks_left-append (sent_late to b type delay ∷ cs) ds = ap (λ l. b ∷ l) (blocks_left-append cs ds)
blocks_left-append (gave_way ∷ cs) ds = blocks_left-append cs ds

-- As many times as a block is got by the calls, it is sent or given back.
abbrev pub IsEven : List Call → Type 0
IsEven calls = (b : ℕ) → count b (blocks_requested calls) ≡ count b (blocks_left calls)

-- What the process gets by its calls and from its mailbox, it sends or gives back.
abbrev pub IsBalanced : List ℕ → List Call → Type 0
IsBalanced received calls =
    (b : ℕ) → count b (blocks_requested calls) + count b received ≡ count b (blocks_left calls)

pub IsBalanced-append :
    (xs ys : List ℕ) (cs ds : List Call)
    → IsBalanced xs cs
    → IsBalanced ys ds
    → IsBalanced (xs ++ ys) (cs ++ ds)
IsBalanced-append xs ys cs ds v w b =
    let h = v b in
    let h' = w b in
    let n = count-append b xs ys in
    let r =
      ap (count b) (blocks_requested-append cs ds)
      ∙ count-append b (blocks_requested cs) (blocks_requested ds) in
    let l =
      ap (count b) (blocks_left-append cs ds) ∙ count-append b (blocks_left cs) (blocks_left ds) in
    omega arith

pub IsEven-IsBalanced : (calls : List Call) → IsEven calls → IsBalanced [] calls
unfolding count
IsEven-IsBalanced calls v b = let h = v b in omega arith

pub released-IsBalanced :
    (msg : ℕ) (calls : List Call) → IsEven calls → IsBalanced (msg ∷ []) (released msg ∷ calls)
unfolding blocks_requested blocks_left count
released-IsBalanced msg calls v b =
    let h = v b in
    elim (Bool-cases (b == msg)) [
      | inl hit ↦ rw hit (omega arith)
      | inr miss ↦ rw miss (omega arith)
    ]

pub registered-IsBalanced :
    (msg1 msg2 : ℕ) (ws wt : Text) (received : List ℕ) (calls : List Call)
    → IsBalanced received calls
    → IsBalanced received (
        requested msg1
        ∷ sent_text kcd_pid msg1 type_register_cmd ws
        ∷ requested msg2
        ∷ sent_text kcd_pid msg2 type_register_cmd wt
        ∷ calls)
unfolding blocks_requested blocks_left
registered-IsBalanced msg1 msg2 ws wt received calls v =
    let both : List Call =
      requested msg1
      ∷ sent_text kcd_pid msg1 type_register_cmd ws
      ∷ requested msg2
      ∷ sent_text kcd_pid msg2 type_register_cmd wt
      ∷ [] in
    IsBalanced-append [] received both calls (IsEven-IsBalanced both (λ b. refl)) v
