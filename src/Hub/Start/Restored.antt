-- ===== src/Hub/Start/Restored.antt =====
-- The hub that new_with_persisted_state of delivery.rs builds keeps the book of names and tokens, if
-- no two rows of the store share a token or a name.
use simple_im.Base.{
  ℕ, ◌≡◌, ◌≢◌, refl, inl, inr, Option, none, some, List, [], ◌∷◌, arith, foldl, retain, All,
  Bool-cases,
}
use simple_im.Base.Text.{Text, text_Eq, pair_Eq, text_eq_iff}
use simple_im.Base.Map.{get, get-insert}
use simple_im.Base.Map.Distinct.{insert-Distinct}
use simple_im.Trust.Load.{load_from_store}
use simple_im.Hub.Sets.{contains, contains-set_insert}
use simple_im.Hub.State.{ListenTokenState, HubInner}
use simple_im.Hub.Tokens.{new_state, with_token}
use simple_im.Hub.Names.Book.{IsBound, enter-IsBound}
use simple_im.Hub.Start.{
  Settings, PersistedToken, PersistedDenialBlock, Persisted, is_listen_row, new, rebound,
  resolved_name, restored_state, restore_token, restore_block, restore_identity, restore_governor,
  new_with_persisted_state,
}

-- A row is of a token and a name that the hub does not know.
abbrev Unknown : HubInner → PersistedToken → Type 0
Unknown h t =
    (get t.token h.listen_tokens ≡ none)
    × (get t.token h.token_to_name ≡ none)
    × ((n : Text) → resolved_name t ≡ some n → get n h.name_to_token ≡ none)

-- Two rows have different tokens, and different names if both have one.
abbrev Differ : PersistedToken → PersistedToken → Type 0
Differ t u =
    (t.token ≢ u.token) × ((n : Text) → resolved_name t ≡ some n → resolved_name u ≢ some n)

abbrev pub Apart : List PersistedToken → Type 0
Apart [] = Unit
Apart (t ∷ ts) = All (Differ t) ts × Apart ts

module _ (now : ℕ) (h : HubInner) (t : PersistedToken) (b : IsBound h) (u : Unknown h t) where
  abbrev state : Option Text → ListenTokenState
  state o = restored_state now t o

  IsBound-as :
      (o : Option Text)
      → resolved_name t ≡ o
      → IsBound (with_token (rebound h t.token o) t.token (state o))
  unfolding new_state
  IsBound-as none e = enter-IsBound h b t.token (state none) u.0 refl
  IsBound-as (some n) e = record {
    owner = λ j m q. ground (
      arith,
      get-insert t.token j n h.token_to_name,
      get-insert n m t.token h.name_to_token,
      text_eq_iff t.token j,
      text_eq_iff n m,
      b.owner j m,
      u.2 n e,
    );
    known = λ j m q. ground (
      arith,
      get-insert t.token j n h.token_to_name,
      get-insert t.token j (state (some n)) h.listen_tokens,
      b.known j m,
    );
    spoken = λ j m q. ground (
      arith,
      get-insert t.token j n h.token_to_name,
      get-insert t.token j (state (some n)) h.listen_tokens,
      b.spoken j m,
      q,
    );
    rostered = λ j m q. ground (
      arith,
      contains-set_insert n m h.identities,
      get-insert t.token j (state (some n)) h.listen_tokens,
      b.rostered j m,
      text_eq_iff n m,
      q,
    );
    distinct = insert-Distinct t.token (state (some n)) h.listen_tokens b.distinct;
    unique = insert-Distinct t.token n h.token_to_name b.unique;
  }

  still-Unknown :
      (o : Option Text) (v : PersistedToken)
      → resolved_name t ≡ o
      → Differ t v
      → Unknown h v
      → Unknown (with_token (rebound h t.token o) t.token (state o)) v
  still-Unknown none v e (ne, names) k = (
    ground (
      arith,
      get-insert t.token v.token (state none) h.listen_tokens,
      text_eq_iff t.token v.token,
    ),
    k.1,
    k.2,
  )
  still-Unknown (some n) v e (ne, names) k = (
    ground (
      arith,
      get-insert t.token v.token (state (some n)) h.listen_tokens,
      text_eq_iff t.token v.token,
    ),
    ground (arith, get-insert t.token v.token n h.token_to_name, text_eq_iff t.token v.token),
    λ m q.
        ground
          (arith, get-insert n m t.token h.name_to_token, text_eq_iff n m, names n e, q, k.2 m q),
  )

tokens-IsBound :
    (now : ℕ) (h : HubInner) (ts : List PersistedToken)
    → IsBound h
    → Apart ts
    → All (Unknown h) ts
    → IsBound (foldl (restore_token now) h ts)
unfolding foldl restore_token
tokens-IsBound now h [] b a u = b
tokens-IsBound now h (t ∷ ts) b (d, a) (k, u) =
    let h' = restore_token now h t in
    tokens-IsBound now h' ts (IsBound-as now h t b k (resolved_name t) refl) a (both ts d u)
  where
    both :
        (vs : List PersistedToken)
        → All (Differ t) vs
        → All (Unknown h) vs
        → All (Unknown (restore_token now h t)) vs
    both [] x y = tt
    both (v ∷ vs) x y =
        (still-Unknown now h t b k (resolved_name t) v refl x.0 y.0, both vs x.1 y.1)

-- Nobody has a token yet.
abbrev IsVacant : HubInner → Type 0
IsVacant h = (h.listen_tokens ≡ []) × (h.token_to_name ≡ []) × (h.name_to_token ≡ [])

vacant-IsBound : (h : HubInner) → IsVacant h → IsBound h
unfolding get
vacant-IsBound h (l, t, n) = record {
  owner = λ j m q. absurd (ground (arith, t, q));
  known = λ j m q. absurd (ground (arith, t, q));
  spoken = λ j m q. absurd (ground (arith, l, q));
  rostered = λ j m q. absurd (ground (arith, l, q));
  distinct = rw l tt;
  unique = rw t tt;
}

-- A fresh hub keeps the book: it has no token.
pub new-IsBound : (lapse_after : ℕ) (s : Settings) → IsBound (new lapse_after s)
unfolding new
new-IsBound lapse_after s = vacant-IsBound (new lapse_after s) (refl, refl, refl)

identities-IsVacant :
    (h : HubInner) (names : List Text) → IsVacant h → IsVacant (foldl restore_identity h names)
unfolding foldl
identities-IsVacant h [] v = v
identities-IsVacant h (n ∷ names) v = identities-IsVacant (restore_identity h n) names v

vacant-Unknown : (h : HubInner) (ts : List PersistedToken) → IsVacant h → All (Unknown h) ts
unfolding get
vacant-Unknown h [] v = tt
vacant-Unknown h (t ∷ ts) (l, t', n) =
    ((rw l refl, rw t' refl, λ m q. rw n refl), vacant-Unknown h ts (l, t', n))

blocks-IsBound :
    (h : HubInner) (bs : List PersistedDenialBlock) → IsBound h → IsBound (foldl restore_block h bs)
unfolding foldl
blocks-IsBound h [] b = b
blocks-IsBound h (x ∷ bs) b = blocks-IsBound (restore_block h x) bs (record {
  owner = b.owner;
  known = b.known;
  spoken = b.spoken;
  rostered = b.rostered;
  distinct = b.distinct;
  unique = b.unique;
})

governor-IsBound :
    (h : HubInner) (governor : Option Text) → IsBound h → IsBound (restore_governor h governor)
governor-IsBound h none b = b
governor-IsBound h (some name) b = elim (Bool-cases (contains h.identities name)) [
  | inl e ↦ rw e (record {
    owner = b.owner;
    known = b.known;
    spoken = b.spoken;
    rostered = b.rostered;
    distinct = b.distinct;
    unique = b.unique;
  })
  | inr e ↦ rw e b
]

-- The hub that is built from the store keeps the book, if no two of its token rows share a token or
-- a name.
pub restored-IsBound :
    (lapse_after : ℕ) (s : Settings) (now now_secs : ℕ) (p : Persisted)
    → Apart (retain is_listen_row p.tokens)
    → IsBound (new_with_persisted_state lapse_after s now now_secs p)
unfolding new_with_persisted_state new
restored-IsBound lapse_after s now now_secs p a =
    let fresh = new lapse_after s in
    let granted = record fresh { trust = load_from_store fresh.trust now now_secs p.grants } in
    let rostered = foldl restore_identity granted p.identities in
    let vacant = identities-IsVacant granted p.identities (refl, refl, refl) in
    let rows = retain is_listen_row p.tokens in
    let listening = foldl (restore_token now) rostered rows in
    governor-IsBound (foldl restore_block listening p.denial_blocks) p.governor (
      blocks-IsBound listening p.denial_blocks (
        tokens-IsBound now rostered rows (vacant-IsBound rostered vacant) a
          (vacant-Unknown rostered rows vacant)))
