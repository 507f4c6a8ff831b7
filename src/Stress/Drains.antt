-- ===== src/Stress/Drains.antt =====
-- The messages that arrive while stress_c waits are those that it handles next.
use ece_354_real_time_operat.Base.{
  ℕ, zero, suc, ◌≡◌, refl, sym, ap, subst, ◌∙◌, List, [], ◌∷◌, ◌++◌, append-nil, append_assoc,
}
use ece_354_real_time_operat.Chain.{length}
use ece_354_real_time_operat.Stress.{LocalQueue, enqueue_local_msg, next_msg, hibernate}
use ece_354_real_time_operat.Stress.Queue.{IsLocal, enqueue_local_msg-IsLocal, next_msg-IsLocal}

-- The messages of the next `n` rounds, without hibernation between them; `received` stands for what
-- receive_message gives to a round that finds the queue empty.
unfoldable pub drain : ℕ → ℕ → LocalQueue → List ℕ
drain zero received q = []
drain (suc n) received q = (next_msg received q).0 ∷ drain n received (next_msg received q).1

hibernate-IsLocal :
    {q : LocalQueue} (xs msgs : List ℕ) → IsLocal q xs → IsLocal (hibernate msgs q) (xs ++ msgs)
unfolding hibernate
hibernate-IsLocal {q} xs [] v = subst (IsLocal q) (sym (append-nil xs)) v
hibernate-IsLocal {q} xs (msg ∷ msgs) v =
    subst (IsLocal (hibernate msgs (enqueue_local_msg msg q))) (append_assoc xs (msg ∷ []) msgs) (
      hibernate-IsLocal {q = enqueue_local_msg msg q} (xs ++ (msg ∷ [])) msgs
        (enqueue_local_msg-IsLocal msg v))

drain-IsLocal :
    (xs : List ℕ) (received : ℕ) (q : LocalQueue) → IsLocal q xs → drain (length xs) received q ≡ xs
unfolding drain
drain-IsLocal [] received q v = refl
drain-IsLocal (x ∷ xs) received q v =
    let (e, v') = next_msg-IsLocal received v in
    ap (λ y. y ∷ drain (length xs) received (next_msg received q).1) e
    ∙ ap (λ ys. x ∷ ys) (drain-IsLocal xs received (next_msg received q).1 v')

-- If the local queue is well formed and holds the messages `xs`, and `msgs` arrive while stress_c
-- hibernates, the rounds after it handle `xs` and then `msgs`, each once and in the order in which they came.
pub drain-hibernate :
    (q : LocalQueue) (xs msgs : List ℕ) (received : ℕ)
    → IsLocal q xs
    → drain (length (xs ++ msgs)) received (hibernate msgs q) ≡ xs ++ msgs
drain-hibernate q xs msgs received v =
    drain-IsLocal (xs ++ msgs) received (hibernate msgs q) (hibernate-IsLocal xs msgs v)
