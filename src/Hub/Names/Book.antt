-- ===== src/Hub/Names/Book.antt =====
-- Who speaks for a name at the hub of delivery.rs: the invariant of the two maps between names and
-- tokens, the states of the tokens, and the roster.
pub mod Collect
pub mod Quiet
pub mod Announce
pub mod Taking
pub mod Streams
pub mod Parting
pub mod Leave
pub mod Evict
pub mod Stranded
pub mod Run
use simple_im.Base.{
  ◌≡◌, ◌≢◌, refl, sym, ap, ◌∙◌, ◌⊎◌, inl, inr, Bool, true, false, Option, none, some, arith, ◌==◌,
  option_map, if◌then◌else◌, Option-cases,
}
use simple_im.Base.Text.{Text, text_Eq, text_eq_iff}
use simple_im.Base.Map.{Map, get, insert, remove, update, get-insert, get-remove, get-update}
use simple_im.Base.Map.Distinct.{Distinct, insert-Distinct, remove-Distinct, update-Distinct}
use simple_im.Hub.Sets.{contains, set_insert, contains-set_insert}
use simple_im.Hub.State.{ListenTokenState, HubInner}
use simple_im.Hub.Tokens.{with_token}
use simple_im.Hub.Names.{bind_name, name_token}

-- What the maps depend on in the state of a token: its name, and whether it is revoked.
abbrev pub face_of : ListenTokenState → Option Text × Bool
face_of st = (st.name, st.revoked)

abbrev pub face : HubInner → Text → Option (Option Text × Bool)
face h t = option_map face_of (get t h.listen_tokens)

-- A token that resolves to a name holds it, and is known under it; a live token that has a name
-- resolves to it, and the name is in the roster.
pub record IsBound (h : HubInner) : Type 0 where
  pub owner : (t n : Text) → get t h.token_to_name ≡ some n → get n h.name_to_token ≡ some t
  pub known :
      (t n : Text)
      → get t h.token_to_name ≡ some n
      → (face h t ≡ some (some n, false)) ⊎ (face h t ≡ some (some n, true))
  pub spoken : (t n : Text) → face h t ≡ some (some n, false) → get t h.token_to_name ≡ some n
  pub rostered : (t n : Text) → face h t ≡ some (some n, false) → contains h.identities n ≡ true
  pub distinct : Distinct h.listen_tokens
  pub unique : Distinct h.token_to_name

-- The invariant speaks of four fields only.
pub record SameBook (h h' : HubInner) : Type 0 where
  pub token_to_name : h'.token_to_name ≡ h.token_to_name
  pub name_to_token : h'.name_to_token ≡ h.name_to_token
  pub identities : h'.identities ≡ h.identities
  pub faces : (t : Text) → face h' t ≡ face h t
  pub distinct : Distinct h.listen_tokens → Distinct h'.listen_tokens

pub SameBook-trans : {a b c : HubInner} → SameBook a b → SameBook b c → SameBook a c
SameBook-trans p q = record {
  token_to_name = q.token_to_name ∙ p.token_to_name;
  name_to_token = q.name_to_token ∙ p.name_to_token;
  identities = q.identities ∙ p.identities;
  faces = λ t. q.faces t ∙ p.faces t;
  distinct = λ d. q.distinct (p.distinct d);
}

pub SameBook-IsBound : (h h' : HubInner) → SameBook h h' → IsBound h → IsBound h'
SameBook-IsBound h h' s b = record {
  owner = λ t n e. rw s.name_to_token (b.owner t n (ap (get t) (sym s.token_to_name) ∙ e));
  known = λ t n e. rw (s.faces t) (b.known t n (ap (get t) (sym s.token_to_name) ∙ e));
  spoken = λ t n e. rw s.token_to_name (b.spoken t n (sym (s.faces t) ∙ e));
  rostered = λ t n e. rw s.identities (b.rostered t n (sym (s.faces t) ∙ e));
  distinct = s.distinct b.distinct;
  unique = rw s.token_to_name b.unique;
}

-- A write to the state of a token that keeps its name and its mark.
pub rewrite-SameBook :
    (h : HubInner) (t : Text) (f : ListenTokenState → ListenTokenState)
    → ((st : ListenTokenState) → get t h.listen_tokens ≡ some st → face_of (f st) ≡ face_of st)
    → SameBook h (record h { listen_tokens = update t f h.listen_tokens })
rewrite-SameBook h t f keep = record {
  token_to_name = refl;
  name_to_token = refl;
  identities = refl;
  faces = λ j. faces_kept j (get j h.listen_tokens) refl (get-update t j f h.listen_tokens);
  distinct = update-Distinct t f h.listen_tokens;
}
  where
    faces_kept :
        (j : Text) (o : Option ListenTokenState)
        → get j h.listen_tokens ≡ o
        → get j (update t f h.listen_tokens) ≡ (if t == j then option_map f o else o)
        → option_map face_of (get j (update t f h.listen_tokens)) ≡ option_map face_of o
    faces_kept j none q e = rw e (ground arith)
    faces_kept j (some st) q e = rw e (ground (arith, keep st, q, text_eq_iff t j))

pub update-SameBook :
    (h : HubInner) (t : Text) (f : ListenTokenState → ListenTokenState)
    → ((st : ListenTokenState) → face_of (f st) ≡ face_of st)
    → SameBook h (record h { listen_tokens = update t f h.listen_tokens })
update-SameBook h t f keep = rewrite-SameBook h t f (λ st e. keep st)

-- The state of a live token is given a name.
pub face-name_token :
    (h : HubInner) (t n : Text) (o : Option Text) (j : Text)
    → face h t ≡ some (o, false)
    → face (name_token h t n) j ≡ (if t == j then some (some n, false) else face h j)
face-name_token h t n o j live =
    let seen = get-update t j (λ st. record st { name = some n }) h.listen_tokens in
    elim (Option-cases (get j h.listen_tokens)) [
      | inl e ↦ ground (arith, seen, e, text_eq_iff t j)
      | inr (st, e) ↦ ground (arith, seen, e, text_eq_iff t j)
    ]

module _ (h : HubInner) (b : IsBound h) where
  -- A live token takes a name that nobody holds.
  pub bind-IsBound :
      (t n : Text) (o : Option Text)
      → face h t ≡ some (o, false)
      → get n h.name_to_token ≡ none
      → IsBound (bind_name h t n)
  unfolding bind_name
  bind-IsBound t n o live free = record {
    owner = λ j m e. ground (
      arith,
      get-insert t j n h.token_to_name,
      get-insert n m t h.name_to_token,
      text_eq_iff t j,
      text_eq_iff n m,
      b.owner j m,
    );
    known = λ j m e.
        ground
          (arith, get-insert t j n h.token_to_name, face-name_token h t n o j live, b.known j m);
    spoken = λ j m e.
        ground
          (arith, get-insert t j n h.token_to_name, face-name_token h t n o j live, b.spoken j m);
    rostered = λ j m e. ground (
      arith,
      contains-set_insert n m h.identities,
      face-name_token h t n o j live,
      b.rostered j m,
      text_eq_iff n m,
    );
    distinct = update-Distinct t (λ st. record st { name = some n }) h.listen_tokens b.distinct;
    unique = insert-Distinct t n h.token_to_name b.unique;
  }

  -- A new token without a name is entered.
  pub enter-IsBound :
      (t : Text) (st : ListenTokenState)
      → get t h.listen_tokens ≡ none
      → st.name ≡ none
      → IsBound (with_token h t st)
  enter-IsBound t st fresh e = record {
    owner = b.owner;
    known = λ j m q.
        ground (arith, get-insert t j st h.listen_tokens, text_eq_iff t j, b.known j m q, fresh);
    spoken =
        λ j m q. ground (arith, get-insert t j st h.listen_tokens, text_eq_iff t j, b.spoken j m);
    rostered =
        λ j m q. ground (arith, get-insert t j st h.listen_tokens, text_eq_iff t j, b.rostered j m);
    distinct = insert-Distinct t st h.listen_tokens b.distinct;
    unique = b.unique;
  }

  -- A token without a name is dropped.
  pub drop-IsBound :
      (t : Text)
      → ((n : Text) (r : Bool) → face h t ≢ some (some n, r))
      → IsBound (record h { listen_tokens = remove t h.listen_tokens })
  drop-IsBound t nameless = record {
    owner = b.owner;
    known = λ j m q. ground (
      arith,
      get-remove t j h.listen_tokens,
      text_eq_iff t j,
      b.known j m q,
      nameless m false,
      nameless m true,
    );
    spoken = λ j m q. ground (arith, get-remove t j h.listen_tokens, b.spoken j m);
    rostered = λ j m q. ground (arith, get-remove t j h.listen_tokens, b.rostered j m);
    distinct = remove-Distinct t h.listen_tokens b.distinct;
    unique = b.unique;
  }
