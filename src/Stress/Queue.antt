-- ===== src/Stress/Queue.antt =====
-- The linked queue as the list of its messages.
use ece_354_real_time_operat.Base.{
  ℕ, ◌<◌, ◌≡◌, refl, sym, ap, subst, ◌∙◌, ◌≢◌, inl, inr, true, false, ◌||◌, List, [], ◌∷◌, ◌++◌,
  arith, ◌==◌, update, Bool-cases,
}
use ece_354_real_time_operat.Chain.{Ptr, null, has, has-append, Chain}
use ece_354_real_time_operat.Stress.{LocalQueue, enqueue_local_msg, next_msg}

abbrev pub last_of : List Ptr → Ptr
last_of [] = null
last_of (x ∷ []) = x
last_of (x ∷ y ∷ ys) = last_of (y ∷ ys)

has-last_of : (x : Ptr) (xs : List Ptr) → has (last_of (x ∷ xs)) (x ∷ xs) ≡ true
has-last_of x [] = ground arith
has-last_of x (y ∷ ys) = let h = has-last_of y ys in ground arith

last_of-end : (y x : Ptr) (xs : List Ptr) → last_of ((x ∷ xs) ++ (y ∷ [])) ≡ y
last_of-end y x [] = refl
last_of-end y x (z ∷ zs) = last_of-end y z zs

-- Linking a new item behind the tail puts it at the end.
link_tail :
    (next : Ptr → Ptr) (y p x : Ptr) (xs : List Ptr)
    → Chain next p (x ∷ xs)
    → has y (x ∷ xs) ≡ false
    → y ≢ null
    → Chain (update (update next y null) (last_of (x ∷ xs)) y) p ((x ∷ xs) ++ (y ∷ []))
link_tail next y p x [] c out live =
    (c.0, c.1, ground arith, (ground arith, live, refl, ground arith))
link_tail next y p x (x' ∷ xs) c out live =
    let t = last_of (x' ∷ xs) in
    let inside = has-last_of x' xs in
    let e : (t == x) ≡ false = elim (Bool-cases (t == x)) [
      | inl hit ↦
          let hit' : t ≡ x = ground arith in
          let inside' : has x (x' ∷ xs) ≡ true = subst (λ z. has z (x' ∷ xs) ≡ true) hit' inside in
          absurd (cc (sym inside' ∙ c.2))
      | inr miss ↦ miss
    ] in
    let e' : (y == x) ≡ false = ground arith in
    let tail = link_tail next y (next x) x' xs c.3 (ground arith) live in
    (c.0, c.1, has-append x (x' ∷ xs) (y ∷ []) ∙ ground arith, rw (e, e') tail)

-- The messages of the items.
abbrev pub envs : (Ptr → ℕ) → List Ptr → List ℕ
envs env [] = []
envs env (p ∷ ps) = env p ∷ envs env ps

envs-enqueue :
    (env : Ptr → ℕ) (y msg : Ptr) (ps : List Ptr)
    → has y ps ≡ false
    → envs (update env y msg) (ps ++ (y ∷ [])) ≡ envs env ps ++ (msg ∷ [])
envs-enqueue env y msg [] out = let e : (y == y) ≡ true = ground arith in rw e refl
envs-enqueue env y msg (p ∷ ps) out =
    let e : (y == p) ≡ false = ground arith in
    rw e (ap (λ xs. env p ∷ xs) (envs-enqueue env y msg ps (ground arith)))

-- The queue holds the messages `xs`.
pub record IsLocal (q : LocalQueue) (xs : List ℕ) : Type 0 where
  pub items : List Ptr
  pub chain : Chain q.next q.msgq_head items
  pub at_tail : q.msgq_tail ≡ last_of items
  pub holds : envs q.env items ≡ xs
  pub below : (p : Ptr) → has p items ≡ true → p < q.fresh
  pub positive : 0 < q.fresh

fresh_out : {q : LocalQueue} {xs : List ℕ} (v : IsLocal q xs) → has q.fresh v.items ≡ false
fresh_out {q} v = elim (Bool-cases (has q.fresh v.items)) [
  | inl e ↦ absurd (let h = v.below q.fresh e in omega arith)
  | inr e ↦ e
]

pub enqueue_local_msg-IsLocal :
    {q : LocalQueue} {xs : List ℕ} (msg : ℕ)
    → IsLocal q xs
    → IsLocal (enqueue_local_msg msg q) (xs ++ (msg ∷ []))
unfolding enqueue_local_msg
enqueue_local_msg-IsLocal {q} {xs} msg v =
    enqueued v.items v.chain v.at_tail v.holds v.below (fresh_out v)
  where
    enqueued :
        (items : List Ptr)
        → Chain q.next q.msgq_head items
        → q.msgq_tail ≡ last_of items
        → envs q.env items ≡ xs
        → ((p : Ptr) → has p items ≡ true → p < q.fresh)
        → has q.fresh items ≡ false
        → IsLocal (enqueue_local_msg msg q) (xs ++ (msg ∷ []))
    enqueued [] c at e below out =
        let empty : (q.msgq_head == null) ≡ true = ground arith in
        rw (← e, empty)
          (record {
            items = q.fresh ∷ [];
            chain = (refl, let h = v.positive in ground arith, refl, ground arith);
            at_tail = refl;
            holds = envs-enqueue q.env q.fresh msg [] refl;
            below = λ p u. ground arith;
            positive = omega arith;
          })
    enqueued (x ∷ ps) c at e below out =
        let full : (q.msgq_head == null) ≡ false = ground arith in
        rw (← e, full)
          (record {
            items = (x ∷ ps) ++ (q.fresh ∷ []);
            chain =
                subst
                  (λ t.
                    Chain (update (update q.next q.fresh null) t q.fresh) q.msgq_head
                      ((x ∷ ps) ++ (q.fresh ∷ [])))
                  (sym at)
                  (link_tail q.next q.fresh q.msgq_head x ps c out
                    (let h = v.positive in ground arith));
            at_tail = sym (last_of-end q.fresh x ps);
            holds = envs-enqueue q.env q.fresh msg (x ∷ ps) out;
            below = λ p u.
                let u' : (has p (x ∷ ps) || has p (q.fresh ∷ [])) ≡ true =
                  sym (has-append p (x ∷ ps) (q.fresh ∷ [])) ∙ u in
                elim (Bool-cases (has p (x ∷ ps))) [
                  | inl old ↦ let h = below p old in omega arith
                  | inr new ↦ ground arith
                ];
            positive = omega arith;
          })

pub next_msg-IsLocal :
    {q : LocalQueue} {x : ℕ} {xs : List ℕ} (received : ℕ)
    → IsLocal q (x ∷ xs)
    → ((next_msg received q).0 ≡ x) × IsLocal (next_msg received q).1 xs
unfolding next_msg
next_msg-IsLocal {q} {x} {xs} received v = taken v.items v.chain v.at_tail v.holds v.below
  where
    taken :
        (items : List Ptr)
        → Chain q.next q.msgq_head items
        → q.msgq_tail ≡ last_of items
        → envs q.env items ≡ x ∷ xs
        → ((p : Ptr) → has p items ≡ true → p < q.fresh)
        → ((next_msg received q).0 ≡ x) × IsLocal (next_msg received q).1 xs
    taken [] c at e below = absurd (cc)
    taken (p ∷ []) c at e below =
        let full : (q.msgq_head == null) ≡ false = ground arith in
        let end : q.next q.msgq_head ≡ null = ap q.next c.0 ∙ c.3 in
        let end' : (q.next q.msgq_head == null) ≡ true = ground arith in
        let first : q.env p ≡ x = cc in
        rw (full, end')
          (
            ap q.env c.0 ∙ first,
            record {
              items = [];
              chain = end;
              at_tail = refl;
              holds = cc;
              below = λ p u. cc;
              positive = v.positive;
            },
          )
    taken (p ∷ y ∷ ys) c at e below =
        let full : (q.msgq_head == null) ≡ false = ground arith in
        let second : q.next q.msgq_head ≡ y = ap q.next c.0 ∙ c.3.0 in
        let more : (q.next q.msgq_head == null) ≡ false = let live = c.3.1 in ground arith in
        let first : q.env p ≡ x = cc in
        rw (full, more)
          (
            ap q.env c.0 ∙ first,
            record {
              items = y ∷ ys;
              chain = subst (λ h. Chain q.next h (y ∷ ys)) (ap q.next (sym c.0)) c.3;
              at_tail = at;
              holds = cc;
              below = λ r u. below r (ground arith);
              positive = v.positive;
            },
          )

-- The queue is empty where its head is NULL.
pub IsLocal-nil : {q : LocalQueue} → IsLocal q [] → (q.msgq_head == null) ≡ true
IsLocal-nil {q} v = empty v.items v.chain v.holds
  where
    empty :
        (items : List Ptr)
        → Chain q.next q.msgq_head items
        → envs q.env items ≡ []
        → (q.msgq_head == null) ≡ true
    empty [] c e = ground arith
    empty (p ∷ ps) c e = absurd (cc)

pub IsLocal-cons :
    {q : LocalQueue} {x : ℕ} {xs : List ℕ} → IsLocal q (x ∷ xs) → (q.msgq_head == null) ≡ false
IsLocal-cons {q} {x} {xs} v = full v.items v.chain v.holds
  where
    full :
        (items : List Ptr)
        → Chain q.next q.msgq_head items
        → envs q.env items ≡ x ∷ xs
        → (q.msgq_head == null) ≡ false
    full [] c e = absurd (cc)
    full (p ∷ ps) c e = ground arith
