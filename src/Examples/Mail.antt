-- ===== src/Examples/Mail.antt =====
-- Examples for the queues of delivery.rs: Alice's inbox holds a message of a thread and one of none.
use simple_im.Base.{ℕ, ◌≡◌, refl, Option, none, some, List, [], ◌∷◌, any, if◌then◌else◌, ◌==◌}
use simple_im.Base.Text.{Text, text_Eq, text_eq, codes}
use simple_im.Base.Map.{get, update}
use simple_im.Error.{ok}
use simple_im.Trust.Chain.{with_clock}
use simple_im.Hub.State.{QueuedMessage, HubInner}
use simple_im.Hub.Queue.{queue_of, deposit, dequeue, drain_queue, kick_pending_for}
use simple_im.Hub.Queue.Fifo.{pops, deposits, pops-deposits}
use simple_im.Hub.Queue.Kick.{IsKicked, deposit-IsKicked, inbox-IsKicked}
use simple_im.Hub.Inbox.{Bound, drain_queue_lem, Asked}
use simple_im.Examples.Sample.{alice, bob, listening, hub}

abbrev message : ℕ → Option Text → QueuedMessage
message n thread = record {
  payload = n ∷ [];
  from_name = bob;
  reason = none;
  event_type = none;
  thread_id = thread;
}

abbrev t : Text
t = codes "t"

abbrev quiet : HubInner
quiet = hub with_clock []

quiet-IsKicked : IsKicked quiet
unfolding kick_pending_for get any
quiet-IsKicked = record { at = λ n. refl }

abbrev mailbox : HubInner
mailbox = deposit (deposit quiet alice (message 1 none)) alice (message 2 (some t))

mailbox-IsKicked : IsKicked mailbox
mailbox-IsKicked =
    deposit-IsKicked (deposit quiet alice (message 1 none)) alice (message 2 (some t))
      (deposit-IsKicked quiet alice (message 1 none) quiet-IsKicked)

alice-Bound : Bound mailbox (codes "ta") alice
unfolding deposit get text_eq update
alice-Bound = record {
  state = record (listening alice) { msg_id = 2 };
  found = refl;
  live = refl;
  named = refl;
}

pops_example :
    ((pops 2 (deposits quiet alice (message 1 none ∷ message 2 none ∷ [])) alice).0
      ≡ message 1 none ∷ message 2 none ∷ [])
    × (queue_of (pops 2 (deposits quiet alice (message 1 none ∷ message 2 none ∷ [])) alice).1 alice
        ≡ [])
unfolding get
pops_example = pops-deposits quiet alice (message 1 none ∷ message 2 none ∷ []) refl

inbox_example :
    IsKicked (deposit mailbox bob (message 3 none))
    × IsKicked (dequeue mailbox 7 (codes "ta") none).1
    × IsKicked (drain_queue mailbox (codes "ta") none).1
inbox_example = inbox-IsKicked mailbox 7 bob (codes "ta") (message 3 none) none mailbox-IsKicked

drain_queue_example :
    (kept : List QueuedMessage) × ((drain_queue mailbox (codes "ta") (some t)).0 ≡ ok kept)
    × Asked (some t) (queue_of mailbox alice) kept
    × (queue_of (drain_queue mailbox (codes "ta") (some t)).1 alice
        ≡ (if alice == alice then [] else queue_of mailbox alice))
drain_queue_example = drain_queue_lem mailbox (codes "ta") alice alice (some t) alice-Bound
