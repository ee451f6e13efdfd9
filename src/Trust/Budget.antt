-- ===== src/Trust/Budget.antt =====
-- Budgets of grants (trust.rs): a message is charged to the grant that let it through.
use mathlib.Core.Path.{subst}
use simple_im.Base.{
  ℕ, ◌≤◌, ◌<◌, ◌≡◌, ◌≢◌, refl, ap, sym, ◌∙◌, Bool, true, false, Option, none, some, List, [], ◌∷◌,
  arith, u64_max, All, Any, update_first, Bool-cases, inl, inr,
}
use simple_im.Base.Text.{Text, text_Eq, text_eq, text_eq_iff}
use simple_im.Error.{ok}
use simple_im.Trust.Grant.{Grant, GrantRef, is_exhausted}
use simple_im.Trust.Chain.{
  TrustChain, has_id, spend, refund, consume_grant_message, restore_grant_message,
}
use simple_im.Trust.Check.{check_grant_directed_with_names}
use simple_im.Trust.Check.Scan.{usable}
use simple_im.Trust.Check.Laws.{covers, check_ok}
use simple_im.Trust.Ids.{DistinctIds, IsFresh, spend-id}

-- No more messages than the budget have been charged.
abbrev pub WithinBudget : Grant → Type 0
WithinBudget g = elim g.max_messages [
  | none ↦ Unit {0}
  | some max ↦ (g.messages_used ≤ max) × (max ≤ u64_max)
]

spend-WithinBudget : (g : Grant) → is_exhausted g ≡ false → WithinBudget g → WithinBudget (spend g)
spend-WithinBudget g u w = ground arith

-- A grant in a list with distinct identifiers is the first with its identifier.
consume_used :
    (covers : Grant → Bool) (now : ℕ) (g : Grant) (gs : List Grant)
    → DistinctIds gs
    → Any (λ h. (h ≡ g) × (usable covers now h ≡ true)) gs
    → All WithinBudget gs
    → All WithinBudget (update_first (has_id g.id) spend gs)
unfolding update_first
consume_used covers now g [] d m w = tt
consume_used covers now g (h ∷ gs) d (inl e) w =
    let same : text_eq h.id g.id ≡ true =
      (text_eq_iff h.id g.id).1 (ap (λ (k : Grant). k.id) e.0) in
    rw same (spend-WithinBudget h (ground arith) w.0, w.1)
consume_used covers now g (h ∷ gs) d (inr m) w = elim (Bool-cases (text_eq h.id g.id)) [
  | inl same ↦ absurd (not_in gs d.0 (sym ((text_eq_iff h.id g.id).0 same)) m)
  | inr other ↦ rw other (w.0, consume_used covers now g gs d.1 m w.1)
]
  where
    not_in :
        (ks : List Grant)
        → All (λ k. k.id ≢ h.id) ks
        → g.id ≡ h.id
        → Any (λ k. (k ≡ g) × (usable covers now k ≡ true)) ks
        → ⊥
    not_in [] a e n = n
    not_in (k ∷ ks) a e (inl n) = a.0 (ap (λ (x : Grant). x.id) n.0 ∙ e)
    not_in (k ∷ ks) a e (inr n) = not_in ks a.1 e n

-- Charging the grant that a check has returned keeps every grant within its budget.
pub check-consume :
    (t : TrustChain) (now : ℕ) (from to : Text) (from_name to_name : Option Text) (ref : GrantRef)
    → IsFresh t
    → All WithinBudget t.grants
    → check_grant_directed_with_names t now from to from_name to_name ≡ ok ref
    → All WithinBudget (consume_grant_message t ref.id).grants
unfolding consume_grant_message
check-consume t now from to from_name to_name ref v w e =
    let (g, r, m, _) = check_ok t now from to from_name to_name ref e in
    subst (λ (x : GrantRef). All WithinBudget (update_first (has_id x.id) spend t.grants)) r
      (consume_used (covers t now from to from_name to_name) now g t.grants v.distinct m w)

refund-spend : (g : Grant) → g.messages_used < u64_max → refund (spend g) ≡ g
refund-spend g h = ground arith

update_first_hit :
    (p : Grant → Bool) (f : Grant → Grant) (g : Grant) (gs : List Grant)
    → p g ≡ true
    → update_first p f (g ∷ gs) ≡ f g ∷ gs
unfolding update_first
update_first_hit p f g gs e = rw e

restore_consume_list :
    (id : Text) (gs : List Grant)
    → All (λ g. g.messages_used < u64_max) gs
    → update_first (has_id id) refund (update_first (has_id id) spend gs) ≡ gs
unfolding update_first
restore_consume_list id [] h = refl
restore_consume_list id (g ∷ gs) h = elim (Bool-cases (text_eq g.id id)) [
  | inl e ↦
      ap (update_first (has_id id) refund) (update_first_hit (has_id id) spend g gs e)
      ∙ update_first_hit (has_id id) refund (spend g) gs (ap (λ x. text_eq x id) (spend-id g) ∙ e)
      ∙ ap (λ x. x ∷ gs) (refund-spend g h.0)
  | inr e ↦ rw (e, e) (ap (◌∷◌ g) (restore_consume_list id gs h.1))
]

-- A charge that is taken back leaves the chain as it was.
restore-consume :
    (t : TrustChain) (grant_id : Text)
    → All (λ g. g.messages_used < u64_max) t.grants
    → restore_grant_message (consume_grant_message t grant_id) grant_id ≡ t
unfolding restore_grant_message consume_grant_message
restore-consume t grant_id h =
    ap (λ gs. record t { grants = gs }) (restore_consume_list grant_id t.grants h)
