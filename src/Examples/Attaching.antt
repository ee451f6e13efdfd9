-- ===== src/Examples/Attaching.antt =====
-- Examples for `attach` and `fetch_attachment` of delivery.rs: Alice attaches two bytes for Bob, who
-- fetches them.
use simple_im.Base.{◌≡◌, refl, arith, true, none, some, List, [], ◌∷◌, foldl}
use simple_im.Base.Text.{Text, text_eq, codes}
use simple_im.Base.Map.{get}
use simple_im.Error.{Result, ok}
use simple_im.Trust.Grant.{Grant, symmetric, bypass, matches_pair, grant_covers_directed_with_names}
use simple_im.Trust.Check.{visit, verdict, check_grant_directed_with_names}
use simple_im.Hub.State.{HubInner, Effect}
use simple_im.Hub.Attachments.{
  StoreAnswers, Attaching, AttachmentMeta, meta_of, may_attach, attach, fetch_attachment,
}
use simple_im.Hub.Attachments.Access.{inserted, Answered, IsParty, attach-fetch}
use simple_im.Hub.Attachments.Laws.{Allowed, Notified, attach_lem}
use simple_im.Examples.Sample.{bob, carol, hub, blank, listening}

abbrev grant : Grant
grant = record {
  id = codes "grant-1";
  identity_a = codes "ta";
  identity_b = codes "tb";
  name_a = none;
  name_b = none;
  expires = none;
  direction = symmetric;
  max_messages = some 3;
  messages_used = 1;
  opens_reply_window = true;
  governor_id = carol;
  mediation = bypass;
  conditions = none;
}

abbrev granted_hub : HubInner
granted_hub =
    hub
      (record {
        governor_identity = some carol;
        grants = grant ∷ [];
        pending_transfers = [];
        counter = 1;
      })
      []

abbrev store : StoreAnswers
store = record { inserts = true; stored = λ id. none; meanwhile = λ h. h }

abbrev two_bytes : Attaching
two_bytes = record {
  to_name = bob;
  filename = codes "a.bin";
  mime = codes "text/plain";
  bytes = 1 ∷ 2 ∷ [];
  note = none;
  ttl = 60;
}

attached :
    (attach blank (some store) granted_hub 5 1000 (7 ∷ []) (codes "ta") two_bytes).0
    ≡ ok (meta_of (7 ∷ []) two_bytes)
unfolding attach may_attach get text_eq check_grant_directed_with_names visit verdict
    grant_covers_directed_with_names matches_pair foldl
attached = refl

attach_example :
    (from_name : Text) × Allowed granted_hub 5 (codes "ta") bob from_name
    × (true ≡ true)
    × Notified blank granted_hub two_bytes
        (meta_of (7 ∷ []) two_bytes).id
        from_name
        (attach blank (some store) granted_hub 5 1000 (7 ∷ []) (codes "ta") two_bytes).1
attach_example =
    attach_lem blank store granted_hub 5 1000 (7 ∷ []) (codes "ta") two_bytes
      (meta_of (7 ∷ []) two_bytes) attached

abbrev outcome : Result AttachmentMeta × HubInner × List Effect
outcome = attach blank (some store) granted_hub 5 1000 (7 ∷ []) (codes "ta") two_bytes

abbrev later : StoreAnswers
later = record { inserts = true; stored = λ id. some (inserted id outcome.2); meanwhile = λ h. h }

attach-fetch_example :
    Answered
      (fetch_attachment
        (some later)
        granted_hub
        1059
        (codes "tb")
        (meta_of (7 ∷ []) two_bytes).id).0
      two_bytes
      (IsParty granted_hub (codes "ta") two_bytes (codes "tb"))
unfolding attach may_attach get text_eq check_grant_directed_with_names visit verdict
    grant_covers_directed_with_names matches_pair foldl
attach-fetch_example =
    attach-fetch blank store granted_hub 5 1000 (7 ∷ []) (codes "ta") two_bytes
      (meta_of (7 ∷ []) two_bytes) outcome.1 outcome.2 refl later granted_hub 1059 (codes "tb")
      (listening bob) refl (omega arith) (omega arith) refl refl
