-- ===== src/Hub/Names/Book/Evict.antt =====
-- A governor that deletes a participant, and one that issues a token for a name (revoke_by_name and
-- issue_participant_token of delivery.rs), keep the book.
use simple_im.Base.{
  ℕ, ◌≡◌, ◌≢◌, refl, ap, ◌∙◌, inl, inr, Bool, true, false, not, Option, none, some, List, arith,
  if◌then◌else◌, ◌==◌, option_map, retain, Bool-cases, Option-cases, All,
}
use simple_im.Base.Text.{Text, text_Eq, text_eq, text_eq_iff}
use simple_im.Base.Map.{get, remove, get-remove, get-remove_self, get-insert_self, get-update}
use simple_im.Base.Map.Distinct.{get-retain, retain-Distinct, remove-Distinct, update-Distinct}
use simple_im.Error.{Result-cases}
use simple_im.Trust.Chain.{purge_grants_for}
use simple_im.Hub.Sets.{contains, contains-set_remove}
use simple_im.Hub.State.{HubInner, Effect, validate_governor_token}
use simple_im.Hub.Denial.{purge_denial_blocks_for}
use simple_im.Hub.Peers.{Env, begin_settle_offline}
use simple_im.Hub.Tokens.{pending_state, with_token, mint}
use simple_im.Hub.Tokens.Mint.{IsDraw, Minted, mint-Minted}
use simple_im.Hub.Names.{bind_name}
use simple_im.Hub.Names.Book.{
  face, face_of, IsBound, SameBook-IsBound, update-SameBook, bind-IsBound, enter-IsBound,
}
use simple_im.Hub.Names.Book.Quiet.{settle-SameBook}
use simple_im.Hub.Names.Book.Parting.{Parted, Parted-IsBound}
use simple_im.Hub.Listening.{on_state}
use simple_im.Hub.Removal.{
  mark_revoked, forget_live, forget_identity, revoke_holder, revoke_by_name,
}
use simple_im.Hub.Issue.{Issued, vacate, rebind, issue_participant_token}

abbrev other_name : Text → Text × Text → Bool
other_name name e = not (e.1 == name)

-- The hub once the live traces of a name are gone, for its holder.
abbrev pub silenced : HubInner → Text → Option Text → Text × HubInner × List Effect
silenced h name o =
    revoke_holder
      (record (forget_live h name) {
        token_to_name = retain (λ e. not (e.1 == name)) (forget_live h name).token_to_name;
      })
      o

abbrev pub deleted : HubInner → Text → Option Text → HubInner
deleted h name o = (forget_identity (silenced h name o).1 name (silenced h name o).0).0

face-marked :
    (h : HubInner) (t j : Text)
    → face (on_state h t mark_revoked) j
      ≡ (if t == j then option_map (λ f. (f.0, true)) (face h j) else face h j)
face-marked h t j =
    ground
      (arith, get-update t j mark_revoked h.listen_tokens, Option-cases (get j h.listen_tokens))

module _ (h : HubInner) (name : Text) (b : IsBound h) where
  -- What resolves to the name no longer does.
  resolves :
      (j m : Text)
      → get j (retain (λ e. not (e.1 == name)) h.token_to_name) ≡ some m
      → (get j h.token_to_name ≡ some m) × (text_eq name m ≡ false)
  resolves j m e = ground (
    arith,
    get-retain (other_name name) j h.token_to_name b.unique,
    Option-cases (get j h.token_to_name),
    e,
    text_eq_iff m name,
    text_eq_iff name m,
  )

  stays :
      (j m : Text)
      → get j h.token_to_name ≡ some m
      → text_eq name m ≡ false
      → get j (retain (λ e. not (e.1 == name)) h.token_to_name) ≡ some m
  stays j m e ne = ground (
    arith,
    get-retain (other_name name) j h.token_to_name b.unique,
    e,
    text_eq_iff m name,
    text_eq_iff name m,
  )

  -- A token that resolves to a name but does not hold `name` resolves to another.
  other_speaker :
      (j m : Text)
      → get j h.token_to_name ≡ some m
      → get name h.name_to_token ≢ some j
      → text_eq name m ≡ false
  other_speaker j m f ne = elim (Bool-cases (text_eq name m)) [
    | inl e ↦ absurd (ground (arith, text_eq_iff name m, e, b.owner j m f, ne))
    | inr e ↦ e
  ]

  other_holder :
      (j m : Text)
      → face h j ≡ some (some m, false)
      → get name h.name_to_token ≢ some j
      → text_eq name m ≡ false
  other_holder j m f ne = other_speaker j m (b.spoken j m f) ne

  unmarked :
      (tok j m : Text)
      → face (on_state h tok mark_revoked) j ≡ some (some m, false)
      → (face h j ≡ some (some m, false)) × (text_eq tok j ≡ false)
  unmarked tok j m e = ground (arith, face-marked h tok j, Option-cases (get j h.listen_tokens), e)

  deleted-Parted :
      (o : Option Text) → get name h.name_to_token ≡ o → Parted h (deleted h name o) (text_eq name)
  unfolding forget_identity purge_grants_for purge_denial_blocks_for
  deleted-Parted none q = record {
    names = λ j m e. let (was, ne) = resolves j m e in (was, ne, inl refl);
    held = λ m t g e. ground (arith, get-remove name m h.name_to_token, g);
    faces = λ j m e. let ne = other_holder j m e (λ k. cc) in (e, ne, λ r. stays j m r ne);
    roster = λ m g i. ground (arith, contains-set_remove name m h.identities, g);
    distinct = b.distinct;
    unique = retain-Distinct (other_name name) h.token_to_name b.unique;
  }
  deleted-Parted (some tok) q = record {
    names = λ j m e.
        let (was, ne) = resolves j m e in
        (was, ne, ground (arith, face-marked h tok j, b.known j m was));
    held = λ m t g e. ground (arith, get-remove name m h.name_to_token, g);
    faces = λ j m e.
        let (f, apart) = unmarked tok j m e in
        let ne = other_holder j m f (λ k. ground (arith, q, k, apart, text_eq_iff tok j)) in
        (f, ne, λ r. stays j m r ne);
    roster = λ m g i. ground (arith, contains-set_remove name m h.identities, g);
    distinct = update-Distinct tok mark_revoked h.listen_tokens b.distinct;
    unique = retain-Distinct (other_name name) h.token_to_name b.unique;
  }

pub revoke_by_name-IsBound :
    (env : Env) (h : HubInner) (name gov : Text)
    → IsBound h
    → IsBound (revoke_by_name env h name gov).1
unfolding revoke_by_name
revoke_by_name-IsBound env h name gov b = elim (Result-cases (validate_governor_token h gov)) [
  | inr (x, e) ↦ rw (e, revoke_by_name) b
  | inl (x, e) ↦
      let begun = (begin_settle_offline env h name).1 in
      let kept = SameBook-IsBound h begun (settle-SameBook env h name) b in
      rw (e, revoke_by_name)
        (Parted-IsBound begun (deleted begun name (get name begun.name_to_token)) (text_eq name)
          kept (deleted-Parted begun name kept (get name begun.name_to_token) refl))
]

detached :
    (h : HubInner) (old j m : Text)
    → get j (remove old h.token_to_name) ≡ some m
    → (get j h.token_to_name ≡ some m) × (text_eq old j ≡ false)
detached h old j m e = ground (arith, get-remove old j h.token_to_name)

unlisted :
    (h : HubInner) (old j m : Text)
    → option_map face_of (get j (remove old h.listen_tokens)) ≡ some (some m, false)
    → (face h j ≡ some (some m, false)) × (text_eq old j ≡ false)
unlisted h old j m e = ground (arith, get-remove old j h.listen_tokens, e)

-- The name without its holder.
vacated-Parted :
    (h : HubInner) (name : Text) → IsBound h → Parted h (vacate h name).1 (text_eq name)
unfolding vacate
vacated-Parted h name b = elim (Option-cases (get name h.name_to_token)) [
  | inl q ↦
      rw (q, vacate)
        (record {
          names = λ j m e. (e, other_speaker h name b j m e (λ k. ground (arith, q, k)), inl refl);
          held = λ m t g e. ground (arith, get-remove name m h.name_to_token, g);
          faces = λ j m e. (e, other_holder h name b j m e (λ k. ground (arith, q, k)), λ r. r);
          roster = λ m g i. i;
          distinct = b.distinct;
          unique = b.unique;
        })
  | inr (old, q) ↦
      rw (q, vacate)
        (record {
          names = λ j m e.
              let (was, apart) = detached h old j m e in
              (
                was,
                other_speaker h name b j m was
                    (λ k. ground (arith, q, k, apart, text_eq_iff old j)),
                inl (ground (arith, get-remove old j h.listen_tokens, apart)),
              );
          held = λ m t g e. ground (arith, get-remove name m h.name_to_token, g);
          faces = λ j m e.
              let (f, apart) = unlisted h old j m e in
              (
                f,
                other_holder h name b j m f (λ k. ground (arith, q, k, apart, text_eq_iff old j)),
                λ r. ground (arith, get-remove old j h.token_to_name, apart, r),
              );
          roster = λ m g i. i;
          distinct = remove-Distinct old h.listen_tokens b.distinct;
          unique = remove-Distinct old h.token_to_name b.unique;
        })
]

vacated : (h : HubInner) (name : Text) → get name (vacate h name).1.name_to_token ≡ none
unfolding vacate
vacated h name = elim (Option-cases (get name h.name_to_token)) [
  | inl q ↦ rw (q, vacate) (get-remove_self name h.name_to_token)
  | inr (old, q) ↦ rw (q, vacate) (get-remove_self name h.name_to_token)
]

-- The new token takes the name over.
module _ (h : HubInner) (now : ℕ) (name : Text) (b : IsBound h) where
  taken_over :
      (tok : Text) (h' : HubInner)
      → Minted (vacate h name).1 (pending_state now) tok h'
      → IsBound (bind_name (on_state h' tok (λ s. record s { ever_granted = true })) tok name)
  unfolding pending_state
  taken_over tok h' m =
      let vacant = (vacate h name).1 in
      let kept = Parted-IsBound h vacant (text_eq name) b (vacated-Parted h name b) in
      let entered = with_token vacant tok (pending_state now) in
      let granted = on_state entered tok (λ s. record s { ever_granted = true }) in
      let same = update-SameBook entered tok (λ s. record s { ever_granted = true }) (λ s. refl) in
      let live : face entered tok ≡ some (none, false) =
        ap (option_map face_of) (get-insert_self tok (pending_state now) vacant.listen_tokens) in
      rw m.entered (
        bind-IsBound granted
          (SameBook-IsBound entered granted same
            (enter-IsBound vacant kept tok (pending_state now) m.fresh refl))
          tok name none (same.faces tok ∙ live) (vacated h name))

-- A result that did not run out of draws keeps the book.
abbrev pub Keeps : Issued → Type 0
Keeps none = Unit
Keeps (some (answer, h', effects)) = IsBound h'

rebind-Keeps :
    (h : HubInner) (now : ℕ) (draws : List ℕ) (name : Text)
    → IsBound h
    → All IsDraw draws
    → Keeps (rebind h now draws name)
unfolding rebind
rebind-Keeps h now draws name b r =
    elim (Option-cases (mint (vacate h name).1 (pending_state now) draws)) [
      | inl e ↦ rw (e, rebind) tt
      | inr ((tok, h'), e) ↦
          rw (e, rebind)
            (taken_over h now name b tok h'
              (mint-Minted (vacate h name).1 (pending_state now) draws tok h' r e))
    ]

pub minted-IsBound :
    (h : HubInner) (now : ℕ) (draws : List ℕ) (tok : Text) (h' : HubInner)
    → IsBound h
    → All IsDraw draws
    → mint h (pending_state now) draws ≡ some (tok, h')
    → IsBound h'
unfolding pending_state
minted-IsBound h now draws tok h' b r e =
    let m = mint-Minted h (pending_state now) draws tok h' r e in
    rw m.entered (enter-IsBound h b tok (pending_state now) m.fresh refl)

pub issue-Keeps :
    (h : HubInner) (now : ℕ) (draws : List ℕ) (gov : Text) (name : Option Text)
    → IsBound h
    → All IsDraw draws
    → Keeps (issue_participant_token h now draws gov name)
unfolding issue_participant_token
issue-Keeps h now draws gov name b r = elim (Result-cases (validate_governor_token h gov)) [
  | inr (x, e) ↦ rw (e, issue_participant_token) b
  | inl (x, e) ↦ elim (Option-cases name) [
    | inr (n, q) ↦ elim (Bool-cases (contains h.identities n)) [
      | inr i ↦ rw (e, q, i, issue_participant_token) b
      | inl i ↦ rw (e, q, i, issue_participant_token) (rebind-Keeps h now draws n b r)
    ]
    | inl q ↦ elim (Option-cases (mint h (pending_state now) draws)) [
      | inl m ↦ rw (e, q, m, issue_participant_token) tt
      | inr ((tok, h'), m) ↦
          rw (e, q, m, issue_participant_token) (minted-IsBound h now draws tok h' b r m)
    ]
  ]
]
