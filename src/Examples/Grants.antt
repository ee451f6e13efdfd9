-- ===== src/Examples/Grants.antt =====
-- Examples for trust.rs: Carol governs and lets Alice send three messages to Bob.
use simple_im.Base.{
  ℕ, ◌≡◌, inl, inr, refl, true, false, Option, none, some, [], ◌∷◌, arith, any, All, Any,
  if◌then◌else◌,
}
use simple_im.Base.Text.{Text, text_Eq, codes}
use simple_im.Error.{ok, err, grant_exhausted, grant_expired, no_grant}
use simple_im.Trust.Grant.{
  Grant, GrantRef, ApproveGrantRequest, default_request, parse_counter_val, grant_id_num,
}
use simple_im.Trust.Chain.{
  TrustChain, with_clock, id_text, approve_grant_req, create_consent_grant, purge_grants_for,
}
use simple_im.Trust.Check.{grant_ref, check_grant_directed_with_names}
use simple_im.Trust.Check.Scan.{NotWorse, usable, spent, lapsed}
use simple_im.Trust.Check.Laws.{covers, check_ok, check_err}
use simple_im.Trust.Ids.{id_text_roundtrip}
use simple_im.Trust.Access.{approve-check}
use simple_im.Trust.Purge.{purge-check}
use simple_im.Trust.Load.{PersistedGrant}
use simple_im.Examples.Sample.{alice, bob, carol}

abbrev three : ApproveGrantRequest
three = record default_request { max_messages = some 3 }

abbrev granted : TrustChain
granted = (approve_grant_req with_clock 0 carol alice bob (some 1000) three).1

found : (ref : GrantRef) × (check_grant_directed_with_names granted 5 alice bob none none ≡ ok ref)
found =
    (approve-check with_clock 0 carol alice bob (some 1000) three 5 (omega arith) (omega arith)
      (λ e. cc)).0

abbrev purged : TrustChain
purged = (purge_grants_for granted alice).1

nothing_left : check_grant_directed_with_names purged 5 alice bob none none ≡ err no_grant
nothing_left = purge-check granted 5 alice alice bob none none (inl (refl, inl refl))

check_ok_example :
    (g : Grant) × (grant_ref g ≡ found.0)
    × Any (λ h. (h ≡ g) × (usable (covers granted 5 alice bob none none) 5 h ≡ true)) granted.grants
    × All
        (λ h. usable (covers granted 5 alice bob none none) 5 h ≡ true → NotWorse g h)
        granted.grants
check_ok_example = check_ok granted 5 alice bob none none found.0 found.1

check_err_example :
    All (λ h. usable (covers purged 5 alice bob none none) 5 h ≡ false) purged.grants
    × (no_grant ≡ (
        if any (spent (covers purged 5 alice bob none none) 5) purged.grants
        then grant_exhausted
        else if any (lapsed (covers purged 5 alice bob none none) 5) purged.grants
        then grant_expired
        else no_grant))
check_err_example = check_err purged 5 alice bob none none no_grant nothing_left

approve-check_example :
    ((ref : GrantRef) × (check_grant_directed_with_names
          (approve_grant_req with_clock 0 carol alice bob (some 1000) three).1
          5
          alice
          bob
          none
          none
        ≡ ok ref))
    × ((ref : GrantRef) × (check_grant_directed_with_names
            (create_consent_grant with_clock 0 alice bob (some 1000) three).1
            5
            alice
            bob
            none
            none
          ≡ ok ref))
approve-check_example =
    approve-check with_clock 0 carol alice bob (some 1000) three 5 (omega arith) (omega arith)
      (λ e. cc)

purge-check_example :
    check_grant_directed_with_names (purge_grants_for granted bob).1 5 alice bob none none
    ≡ err no_grant
purge-check_example = purge-check granted 5 bob alice bob none none (inr (refl, inl refl))

id_text_example :
    (parse_counter_val (id_text (codes "req") 17) ≡ 17)
    × (grant_id_num (id_text (codes "grant") 17) ≡ 17)
id_text_example = id_text_roundtrip (codes "req") 17 (omega arith)

abbrev transferring : TrustChain
transferring = record {
  governor_identity = some carol;
  grants = [];
  pending_transfers = (codes "f0", record { from_identity = carol; to_identity = some bob }) ∷ [];
  counter = 0;
}

abbrev stored : Text → Option ℕ → PersistedGrant
stored id expires_at_secs = record {
  id = id;
  identity_a = alice;
  identity_b = bob;
  direction = codes "a_to_b";
  mediation = codes "bypass";
  max_messages = some 3;
  messages_used = 1;
  conditions = none;
  opens_reply_window = true;
  expires_at_secs = expires_at_secs;
  governor_id = carol;
  name_a = none;
  name_b = none;
}
