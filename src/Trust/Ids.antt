-- ===== src/Trust/Ids.antt =====
-- Identifiers of grants (trust.rs) are unique, and the next one is always new.
use mathlib.Core.Path.{subst}
use simple_im.Base.{
  ℕ, ◌+◌, ◌≤◌, ◌<◌, ◌≡◌, ◌≢◌, ap, sym, ◌∙◌, Bool, not, Option, List, [], ◌∷◌, ◌++◌, arith, u64_max,
  wrap64, All, All-append, All-map, All-retain, retain, update_first, unwrap_or, Bool-cases, inl,
  inr, ◌>>=◌,
}
use simple_im.Base.Text.{Text, text_Eq, codes}
use simple_im.Base.Text.Decimal.{
  parse, to_string, parse-to_string, to_string-IsDigit, last_segment-append, strip_prefix-append,
}
use simple_im.Error.{ok}
use simple_im.Trust.Grant.{Grant, ApproveGrantRequest, parse_counter_val, grant_id_num}
use simple_im.Trust.Chain.{
  TrustChain, id_text, has_id, new_grant, approve_grant_req, create_consent_grant,
  consume_grant_message, restore_grant_message, remove_grant, purge_grants_for, spend, refund,
  mentions, expires_at, recipient_consent,
}

-- The number in a printed identifier is read back by both readers: the one that seeds the counter
-- after a restart, for every prefix, and the one that breaks ties between grants.
pub id_text_roundtrip :
    (prefix : Text) (n : ℕ)
    → n ≤ u64_max
    → (parse_counter_val (id_text prefix n) ≡ n) × (grant_id_num (id_text (codes "grant") n) ≡ n)
unfolding parse_counter_val grant_id_num
id_text_roundtrip prefix n h = (
  rw (last_segment-append prefix (to_string n) (to_string-IsDigit n), parse-to_string n h),
  ap (λ o. unwrap_or (o >>= parse) u64_max) (strip_prefix-append (codes "grant-") (to_string n))
      ∙ ap (λ o. unwrap_or o u64_max) (parse-to_string n h),
)

-- No two grants have one identifier.
abbrev pub DistinctIds : List Grant → Type 0
DistinctIds [] = Unit
DistinctIds (g ∷ gs) = All (λ h. h.id ≢ g.id) gs × DistinctIds gs

-- The identifiers are distinct, and their numbers do not pass the counter.
pub record IsFresh (t : TrustChain) : Type 0 where
  pub distinct : DistinctIds t.grants
  pub seeded : All (λ g. parse_counter_val g.id ≤ t.counter) t.grants

pub DistinctIds-snoc :
    (gs : List Grant) (g : Grant)
    → DistinctIds gs
    → All (λ h. h.id ≢ g.id) gs
    → DistinctIds (gs ++ g ∷ [])
DistinctIds-snoc [] g d a = (tt, tt)
DistinctIds-snoc (h ∷ gs) g d a = (
  All-append (λ k. k.id ≢ h.id) gs (g ∷ []) d.0 (λ e. a.0 (sym e), tt),
  DistinctIds-snoc gs g d.1 a.1,
)

DistinctIds-retain :
    (p : Grant → Bool) (gs : List Grant) → DistinctIds gs → DistinctIds (retain p gs)
unfolding retain
DistinctIds-retain p [] d = tt
DistinctIds-retain p (g ∷ gs) d = elim (Bool-cases (p g)) [
  | inl e ↦ rw e (All-retain (λ h. h.id ≢ g.id) p gs d.0, DistinctIds-retain p gs d.1)
  | inr e ↦ rw e (DistinctIds-retain p gs d.1)
]

-- A write that leaves the identifiers alone leaves what is true of them.
module _ (p : Grant → Bool) (f : Grant → Grant) (same : (g : Grant) → (f g).id ≡ g.id) where
  All-update_first :
      (P : Text → Type 0) (gs : List Grant)
      → All (λ g. P g.id) gs
      → All (λ g. P g.id) (update_first p f gs)
  unfolding update_first
  All-update_first P [] a = tt
  All-update_first P (g ∷ gs) a = elim (Bool-cases (p g)) [
    | inl e ↦ rw e (subst P (sym (same g)) a.0, a.1)
    | inr e ↦ rw e (a.0, All-update_first P gs a.1)
  ]

  DistinctIds-update_first : (gs : List Grant) → DistinctIds gs → DistinctIds (update_first p f gs)
  unfolding update_first
  DistinctIds-update_first [] d = tt
  DistinctIds-update_first (g ∷ gs) d = elim (Bool-cases (p g)) [
    | inl e ↦
        rw e
          (All-map (λ h. h.id ≢ g.id) (λ h. h.id ≢ (f g).id) gs (λ h n q. n (q ∙ same g)) d.0, d.1)
    | inr e ↦ rw e (All-update_first (λ id. id ≢ g.id) gs d.0, DistinctIds-update_first gs d.1)
  ]

pub spend-id : (g : Grant) → (spend g).id ≡ g.id
spend-id g = ground arith

refund-id : (g : Grant) → (refund g).id ≡ g.id
refund-id g = ground arith

ok_injective : {x y : Text} → ok x ≡ ok y → x ≡ y
ok_injective e = cc

-- The grant that an approval adds, numbered by the counter.
module _ (t : TrustChain) (governor_id a b : Text) (expires : Option ℕ) (req : ApproveGrantRequest)
    (v : IsFresh t) (room : t.counter < u64_max) where
  abbrev added : Grant
  added = new_grant (id_text (codes "grant") (wrap64 (t.counter + 1))) governor_id a b expires req

  added-number : parse_counter_val added.id ≡ t.counter + 1
  unfolding new_grant
  added-number =
      let no_wrap : wrap64 (t.counter + 1) ≡ t.counter + 1 = omega arith in
      (id_text_roundtrip (codes "grant") (wrap64 (t.counter + 1)) (omega arith)).0 ∙ no_wrap

  added_is_new : All (λ h. h.id ≢ added.id) t.grants
  added_is_new =
      All-map (λ h. parse_counter_val h.id ≤ t.counter) (λ h. h.id ≢ added.id) t.grants
        (λ h le e. absurd (lt_of_number h.id le (ap parse_counter_val e ∙ added-number))) v.seeded
    where
      lt_of_number :
          (id : Text) → parse_counter_val id ≤ t.counter → parse_counter_val id ≡ t.counter + 1 → ⊥
      lt_of_number id le e = omega arith

  added-IsFresh :
      IsFresh (record t { grants = t.grants ++ added ∷ []; counter = wrap64 (t.counter + 1) })
  added-IsFresh =
      let no_wrap : wrap64 (t.counter + 1) ≡ t.counter + 1 = omega arith in
      let number : parse_counter_val added.id ≤ wrap64 (t.counter + 1) =
        omega (arith, added-number) in
      record {
        distinct = DistinctIds-snoc t.grants added v.distinct added_is_new;
        seeded =
            All-append (λ g. parse_counter_val g.id ≤ wrap64 (t.counter + 1)) t.grants (added ∷ [])
              (All-map (λ g. parse_counter_val g.id ≤ t.counter)
                (λ g. parse_counter_val g.id ≤ wrap64 (t.counter + 1)) t.grants
                (λ g le. grown g.id le) v.seeded)
              (number, tt);
      }
    where
      grown :
          (id : Text)
          → parse_counter_val id ≤ t.counter
          → parse_counter_val id ≤ wrap64 (t.counter + 1)
      grown id le = omega arith

-- An approval with room on the counter, by a governor or by the recipient, returns an identifier
-- that no grant had, gives it to the new grant at the end, and keeps the identifiers unique.
pub approve-IsFresh :
    (t : TrustChain) (now : ℕ) (gov a b : Text) (expiry : Option ℕ) (req : ApproveGrantRequest)
    → IsFresh t
    → t.counter < u64_max
    → IsFresh (approve_grant_req t now gov a b expiry req).1
      × IsFresh (create_consent_grant t now a b expiry req).1
      × All (λ h. ok h.id ≢ (approve_grant_req t now gov a b expiry req).0) t.grants
      × All (λ h. ok h.id ≢ (create_consent_grant t now a b expiry req).0) t.grants
unfolding approve_grant_req create_consent_grant
approve-IsFresh t now gov a b expiry req v room =
    let fresh = added_is_new t gov a b (expires_at now expiry) req v room in
    (
      added-IsFresh t gov a b (expires_at now expiry) req v room,
      added-IsFresh t recipient_consent a b (expires_at now expiry) req v room,
      All-map (λ h. h.id ≢ id_text (codes "grant") (wrap64 (t.counter + 1))) _ t.grants
          (λ h n e. n (ok_injective e)) fresh,
      All-map (λ h. h.id ≢ id_text (codes "grant") (wrap64 (t.counter + 1))) _ t.grants
          (λ h n e. n (ok_injective e)) fresh,
    )

-- So do the other operations on grants.
pub step-IsFresh :
    (t : TrustChain) (grant_id name : Text)
    → IsFresh t
    → IsFresh (consume_grant_message t grant_id)
      × IsFresh (restore_grant_message t grant_id)
      × IsFresh (remove_grant t grant_id).1
      × IsFresh (purge_grants_for t name).1
unfolding consume_grant_message restore_grant_message remove_grant purge_grants_for
step-IsFresh t grant_id name v = (
  record {
    distinct = DistinctIds-update_first (has_id grant_id) spend spend-id t.grants v.distinct;
    seeded =
        All-update_first (has_id grant_id) spend spend-id (λ id. parse_counter_val id ≤ t.counter)
          t.grants v.seeded;
  },
  record {
    distinct = DistinctIds-update_first (has_id grant_id) refund refund-id t.grants v.distinct;
    seeded =
        All-update_first (has_id grant_id) refund refund-id (λ id. parse_counter_val id ≤ t.counter)
          t.grants v.seeded;
  },
  kept (λ g. not (has_id grant_id g)),
  kept (λ g. not (mentions name g)),
)
  where
    kept : (p : Grant → Bool) → IsFresh (record t { grants = retain p t.grants })
    kept p = record {
      distinct = DistinctIds-retain p t.grants v.distinct;
      seeded = All-retain (λ g. parse_counter_val g.id ≤ t.counter) p t.grants v.seeded;
    }
