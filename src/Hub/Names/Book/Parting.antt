-- ===== src/Hub/Names/Book/Parting.antt =====
-- Tokens that part from their names (cancel_listen, revoke_token, revoke_by_name, delete_self and the
-- rebinding by a governor, of delivery.rs) keep the book.
use simple_im.Base.{
  ◌≡◌, ◌≢◌, ◌⊎◌, inl, inr, Bool, true, false, Option, none, some, arith, if◌then◌else◌, ◌==◌,
  Option-cases,
}
use simple_im.Base.Text.{Text, text_Eq, text_eq, text_eq_iff, is_text}
use simple_im.Base.Map.{get}
use simple_im.Base.Map.Distinct.{Distinct}
use simple_im.Hub.Sets.{contains}
use simple_im.Hub.State.{HubInner}
use simple_im.Hub.Names.Book.{face, IsBound}

-- What a step that takes names away does to the book: a token that still resolves to a name did, to
-- a name that is kept; a name that is kept is still held and still in the roster; and a live token
-- that has a name had it, and resolves to it as before.
pub record Parted (h h' : HubInner) (gone : Text → Bool) : Type 0 where
  pub names :
      (j m : Text)
      → get j h'.token_to_name ≡ some m
      → (get j h.token_to_name ≡ some m)
        × (gone m ≡ false)
        × ((face h' j ≡ face h j) ⊎ (face h' j ≡ some (some m, true)))
  pub held :
      (m t : Text)
      → gone m ≡ false
      → get m h.name_to_token ≡ some t
      → get m h'.name_to_token ≡ some t
  pub faces :
      (j m : Text)
      → face h' j ≡ some (some m, false)
      → (face h j ≡ some (some m, false))
        × (gone m ≡ false)
        × (get j h.token_to_name ≡ some m → get j h'.token_to_name ≡ some m)
  pub roster :
      (m : Text) → gone m ≡ false → contains h.identities m ≡ true → contains h'.identities m ≡ true
  pub distinct : Distinct h'.listen_tokens
  pub unique : Distinct h'.token_to_name

pub Parted-IsBound :
    (h h' : HubInner) (gone : Text → Bool) → IsBound h → Parted h h' gone → IsBound h'
Parted-IsBound h h' gone b p = record {
  owner = λ j m e. let (was, stays, seen) = p.names j m e in p.held m j stays (b.owner j m was);
  known = λ j m e. let (was, stays, seen) = p.names j m e in ground (arith, b.known j m was, seen);
  spoken = λ j m e. let (was, stays, says) = p.faces j m e in says (b.spoken j m was);
  rostered =
      λ j m e. let (was, stays, says) = p.faces j m e in p.roster m stays (b.rostered j m was);
  distinct = p.distinct;
  unique = p.unique;
}

-- A token loses the name that it resolves to, and is left without a name or revoked.
pub record Stripped (h h' : HubInner) (t : Text) (f : Option Text × Bool) : Type 0 where
  pub names : (j : Text) → get j h'.token_to_name ≡ (if t == j then none else get j h.token_to_name)
  pub held :
      (m : Text)
      → get m h'.name_to_token
        ≡ (if is_text (get t h.token_to_name) m then none else get m h.name_to_token)
  pub faces : (j : Text) → face h' j ≡ (if t == j then some f else face h j)
  pub roster :
      (m : Text)
      → is_text (get t h.token_to_name) m ≡ false
      → contains h.identities m ≡ true
      → contains h'.identities m ≡ true
  pub silent : (n : Text) → f ≢ (some n, false)
  pub distinct : Distinct h'.listen_tokens
  pub unique : Distinct h'.token_to_name

-- No other token resolves to the name of a token.
pub alone :
    (h : HubInner)
    → IsBound h
    → (t j m : Text) → get j h.token_to_name ≡ some m
    → text_eq t j ≡ false
    → is_text (get t h.token_to_name) m ≡ false
alone h b t j m e ne = elim (Option-cases (get t h.token_to_name)) [
  | inl q ↦ rw q
  | inr (n, q) ↦
      rw q
        (ground (arith, q, b.owner t n q, b.owner j m e, e, ne, text_eq_iff t j, text_eq_iff n m))
]

pub Stripped-Parted :
    (h h' : HubInner) (t : Text) (f : Option Text × Bool)
    → IsBound h
    → Stripped h h' t f
    → Parted h h' (is_text (get t h.token_to_name))
Stripped-Parted h h' t f b s = record {
  names = λ j m e. ground (arith, s.names j, e, s.faces j, alone h b t j m);
  held = λ m j g e. ground (arith, s.held m);
  faces =
      λ j m e. ground (arith, s.faces j, e, s.silent m, s.names j, b.spoken j m, alone h b t j m);
  roster = s.roster;
  distinct = s.distinct;
  unique = s.unique;
}
