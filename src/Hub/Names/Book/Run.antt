-- ===== src/Hub/Names/Book/Run.antt =====
-- Every run of the hub of delivery.rs through the operations on tokens and names, from a fresh hub or
-- from the store, keeps the book; so a name has one voice.
use mathlib.Core.Path.{subst}
use simple_im.Base.{
  ℕ, ◌≡◌, refl, inl, inr, Bool, true, false, Option, some, List, [], arith, retain, All,
  Option-cases,
}
use simple_im.Base.Text.{Text, text_Eq}
use simple_im.Base.Map.{get}
use simple_im.Error.{Result, Result-cases}
use simple_im.Hub.State.{HubInner, Effect}
use simple_im.Hub.Peers.{Env}
use simple_im.Hub.Tokens.{
  live_state, register_participant, hide, show, set_hidden, name_for_bearer_token,
}
use simple_im.Hub.Tokens.Mint.{IsDraw}
use simple_im.Hub.Names.{gc_tokens, announce}
use simple_im.Hub.Names.Book.{IsBound, SameBook-IsBound, update-SameBook}
use simple_im.Hub.Names.Book.Collect.{gc_tokens_lem}
use simple_im.Hub.Names.Book.Announce.{announce-Safe}
use simple_im.Hub.Names.Book.Streams.{open_listen-Safe, close_listen-SameBook}
use simple_im.Hub.Names.Book.Leave.{
  cancel_listen-IsBound, revoke_token-IsBound, delete_self-IsBound,
}
use simple_im.Hub.Names.Book.Evict.{Keeps, issue-Keeps, minted-IsBound, revoke_by_name-IsBound}
use simple_im.Hub.Listening.{ListenArgs, open_listen}
use simple_im.Hub.Listening.Closing.{close_listen, cancel_listen}
use simple_im.Hub.Removal.{revoke_token, revoke_by_name, delete_self}
use simple_im.Hub.Issue.{issue_participant_token}
use simple_im.Hub.Start.{Settings, Persisted, is_listen_row, new, new_with_persisted_state}
use simple_im.Hub.Start.Restored.{Apart, new-IsBound, restored-IsBound}

-- One call of an operation on tokens and names, at any time, with any outcome.
pub data Step (h h' : HubInner) : Type 0 where
  registers :
      (now : ℕ) (draws : List ℕ) (tok : Text)
      → All IsDraw draws
      → register_participant h now draws ≡ some (tok, h')
      → Step h h'
  issues :
      (now : ℕ) (draws : List ℕ) (gov : Text) (name : Option Text)
      (answer : Result (Text × Option Text)) (effects : List Effect)
      → All IsDraw draws
      → issue_participant_token h now draws gov name ≡ some (answer, h', effects)
      → Step h h'
  opens :
      (env : Env) (token : Option Text) (args : ListenArgs) (tx : ℕ)
      → h' ≡ (open_listen env h token args tx).1
      → Step h h'
  closes : (env : Env) (token : Text) → h' ≡ (close_listen env h token).0 → Step h h'
  cancels : (env : Env) (token : Text) → h' ≡ (cancel_listen env h token).1 → Step h h'
  announces : (env : Env) (token name : Text) → h' ≡ (announce env h token name).1 → Step h h'
  collects : (env : Env) → h' ≡ (gc_tokens env h).0 → Step h h'
  revokes : (env : Env) (token gov : Text) → h' ≡ (revoke_token env h token gov).1 → Step h h'
  deletes : (env : Env) (name gov : Text) → h' ≡ (revoke_by_name env h name gov).1 → Step h h'
  leaves : (env : Env) (token : Text) → h' ≡ (delete_self env h token).1 → Step h h'
  hides : (token : Text) → h' ≡ (hide h token).1 → Step h h'
  shows : (token : Text) → h' ≡ (show h token).1 → Step h h'

pub data Run : HubInner → Type 0 where
  fresh : (lapse_after : ℕ) (s : Settings) → Run (new lapse_after s)
  restored :
      (lapse_after : ℕ) (s : Settings) (now now_secs : ℕ) (p : Persisted)
      → Apart (retain is_listen_row p.tokens)
      → Run (new_with_persisted_state lapse_after s now now_secs p)
  next : {h h' : HubInner} → Run h → Step h h' → Run h'

hidden-IsBound :
    (h : HubInner) (token : Text) (v : Bool) → IsBound h → IsBound (set_hidden h token v)
hidden-IsBound h token v b =
    SameBook-IsBound h (set_hidden h token v)
      (update-SameBook h token (λ s. record s { hidden = v }) (λ s. refl)) b

hide-IsBound : (h : HubInner) (token : Text) → IsBound h → IsBound (hide h token).1
unfolding hide
hide-IsBound h token b = elim (Result-cases (live_state h token)) [
  | inl (st, e) ↦ rw (e, hide) (hidden-IsBound h token true b)
  | inr (x, e) ↦ rw (e, hide) b
]

show-IsBound : (h : HubInner) (token : Text) → IsBound h → IsBound (show h token).1
unfolding show
show-IsBound h token b = elim (Result-cases (live_state h token)) [
  | inl (st, e) ↦ rw (e, show) (hidden-IsBound h token false b)
  | inr (x, e) ↦ rw (e, show) b
]

Step-IsBound : (h h' : HubInner) → Step h h' → IsBound h → IsBound h'
unfolding register_participant
Step-IsBound h h' (registers now draws tok r e) b = minted-IsBound h now draws tok h' b r e
Step-IsBound h h' (issues now draws gov name answer effects r e) b =
    subst Keeps e (issue-Keeps h now draws gov name b r)
Step-IsBound h h' (opens env token args tx e) b =
    rw e (open_listen-Safe env token args tx h b).bound
Step-IsBound h h' (closes env token e) b =
    rw e (SameBook-IsBound h _ (close_listen-SameBook env h token) b)
Step-IsBound h h' (cancels env token e) b = rw e (cancel_listen-IsBound env h token b)
Step-IsBound h h' (announces env token name e) b = rw e (announce-Safe env token name h b).bound
Step-IsBound h h' (collects env e) b = rw e (let (q, l, n, kept) = gc_tokens_lem env h b [] in kept)
Step-IsBound h h' (revokes env token gov e) b = rw e (revoke_token-IsBound env h token b gov)
Step-IsBound h h' (deletes env name gov e) b = rw e (revoke_by_name-IsBound env h name gov b)
Step-IsBound h h' (leaves env token e) b = rw e (delete_self-IsBound env h token b)
Step-IsBound h h' (hides token e) b = rw e (hide-IsBound h token b)
Step-IsBound h h' (shows token e) b = rw e (show-IsBound h token b)

pub Run-IsBound : {h : HubInner} → Run h → IsBound h
Run-IsBound (fresh lapse_after s) = new-IsBound lapse_after s
Run-IsBound (restored lapse_after s now now_secs p a) =
    restored-IsBound lapse_after s now now_secs p a
Run-IsBound {h = h'} (next {h} r s) = Step-IsBound h h' s (Run-IsBound r)

-- A bearer that resolves to a name holds it.
bearer_holds :
    (h : HubInner) (token name : Text)
    → IsBound h
    → name_for_bearer_token h token ≡ some name
    → get name h.name_to_token ≡ some token
unfolding name_for_bearer_token
bearer_holds h token name b e = elim (Option-cases (get token h.listen_tokens)) [
  | inl q ↦ ground (arith, q, e, b.owner token name)
  | inr (st, q) ↦ ground (arith, q, e, b.spoken token name, b.owner token name)
]

-- In every run of the hub through the operations on tokens and names, from a fresh hub or from a
-- store in which no two token rows share a token or a name: two bearer tokens that resolve to the
-- same name are the same token.
pub one_voice :
    (h : HubInner) (t u name : Text)
    → Run h
    → name_for_bearer_token h t ≡ some name
    → name_for_bearer_token h u ≡ some name
    → t ≡ u
one_voice h t u name r p q =
    let b = Run-IsBound r in ground (arith, bearer_holds h t name b p, bearer_holds h u name b q)
