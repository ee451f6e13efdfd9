-- ===== src/Hub/Queue/Fifo.antt =====
-- Order of delivery from the message queues of delivery.rs.
use mathlib.Core.List.{append_assoc, append-nil}
use simple_im.Base.{
  ℕ, zero, suc, ◌≡◌, refl, sym, ap, ◌∙◌, inl, inr, Bool, true, false, none, some, List, [], ◌∷◌,
  ◌++◌, arith, if◌then◌else◌, ◌==◌, find, length, All, Bool-cases,
}
use simple_im.Base.Text.{Text, text_Eq, text_eq_self}
use simple_im.Base.Map.{update, get-insert, get-update}
use simple_im.Hub.State.{QueuedMessage, HubInner}
use simple_im.Hub.Queue.{queue_of, deposit, rest_of, settle_kick, pop_message, remove_first}

-- A deposit goes to the end of its queue, and to no other.
pub queue_of-deposit :
    (h : HubInner) (name n : Text) (m : QueuedMessage)
    → queue_of (deposit h name m) n
      ≡ (if name == n then queue_of h name ++ m ∷ [] else queue_of h n)
unfolding deposit
queue_of-deposit h name n m =
    ground (arith, get-insert name n (queue_of h name ++ m ∷ []) h.message_queues)

pub queue_of-settle_kick :
    (h : HubInner) (name n : Text) → queue_of (settle_kick h name) n ≡ queue_of h n
queue_of-settle_kick h name n = ground arith

pub queue_of-update :
    (h : HubInner) (name n : Text) (f : List QueuedMessage → List QueuedMessage)
    → f [] ≡ []
    → queue_of (record h { message_queues = update name f h.message_queues }) n
      ≡ (if name == n then f (queue_of h n) else queue_of h n)
queue_of-update h name n f e = ground (arith, e, get-update name n f h.message_queues)

pub queue_of-pop :
    (h : HubInner) (name n : Text)
    → queue_of (pop_message h name).1 n
      ≡ (if name == n then rest_of (queue_of h n) else queue_of h n)
unfolding pop_message
queue_of-pop h name n =
    queue_of-settle_kick (record h { message_queues = update name rest_of h.message_queues }) name n
    ∙ queue_of-update h name n rest_of refl

-- `n` pops in a row.
pub pops : ℕ → HubInner → Text → List QueuedMessage × HubInner
pops zero h name = ([], h)
pops (suc k) h name = elim (pop_message h name).0 [
  | none ↦ pops k (pop_message h name).1 name
  | some m ↦ (m ∷ (pops k (pop_message h name).1 name).0, (pops k (pop_message h name).1 name).1)
]

pops_list :
    (q : List QueuedMessage) (h : HubInner) (name : Text)
    → queue_of h name ≡ q
    → ((pops (length q) h name).0 ≡ q) × (queue_of (pops (length q) h name).1 name ≡ [])
unfolding pops
pops_list [] h name e = (refl, e)
pops_list (m ∷ q) h name e =
    let rest : queue_of (pop_message h name).1 name ≡ q =
      rw (queue_of-pop h name name, text_eq_self name, e) refl in
    let first : (pop_message h name).0 ≡ some m = unfold pop_message in rw e refl in
    ground (arith, first, pops_list q (pop_message h name).1 name rest)

pub deposits : HubInner → Text → List QueuedMessage → HubInner
deposits h name [] = h
deposits h name (m ∷ ms) = deposits (deposit h name m) name ms

queue_of-deposits :
    (h : HubInner) (name : Text) (ms : List QueuedMessage)
    → queue_of (deposits h name ms) name ≡ queue_of h name ++ ms
unfolding deposits
queue_of-deposits h name [] = sym (append-nil (queue_of h name))
queue_of-deposits h name (m ∷ ms) =
    queue_of-deposits (deposit h name m) name ms
    ∙ ap (λ q. q ++ ms) (rw (queue_of-deposit h name name m, text_eq_self name) refl)
    ∙ append_assoc (queue_of h name) (m ∷ []) ms

-- Messages come out in the order in which they went in: with the queue empty at first, as many
-- pops as there were deposits return all of them in their order and leave the queue empty.
pub pops-deposits :
    (h : HubInner) (name : Text) (ms : List QueuedMessage)
    → queue_of h name ≡ []
    → ((pops (length ms) (deposits h name ms) name).0 ≡ ms)
      × (queue_of (pops (length ms) (deposits h name ms) name).1 name ≡ [])
pops-deposits h name ms e =
    pops_list ms (deposits h name ms) name (queue_of-deposits h name ms ∙ ap (λ q. q ++ ms) e)

-- The first message that passes a test, taken out of a list.
pub data Removal (p : QueuedMessage → Bool) (q : List QueuedMessage) : Type 0 where
  absent : All (λ m. p m ≡ false) q → find p q ≡ none → Removal p q
  taken :
      (before : List QueuedMessage) (m : QueuedMessage) (after : List QueuedMessage)
      → q ≡ before ++ m ∷ after
      → p m ≡ true
      → All (λ x. p x ≡ false) before
      → find p q ≡ some m
      → remove_first p q ≡ before ++ after
      → Removal p q

pub removal : (p : QueuedMessage → Bool) (q : List QueuedMessage) → Removal p q
unfolding find remove_first
removal p [] = absent tt refl
removal p (x ∷ q) = elim (Bool-cases (p x)) [
  | inl e ↦ taken [] x q refl e tt (rw e refl) (rw e refl)
  | inr e ↦ elim (removal p q) [
    | absent a f ↦ absent (e, a) (rw e f)
    | taken before m after s t b f r ↦
        taken (x ∷ before) m after (ap (◌∷◌ x) s) t (e, b) (rw e f) (rw e (ap (◌∷◌ x) r))
  ]
]
