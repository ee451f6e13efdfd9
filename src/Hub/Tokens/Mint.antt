-- ===== src/Hub/Tokens/Mint.antt =====
-- The loop of delivery.rs that mints a token: it ends, and what it returns is new.
use simple_im.Base.{
  ℕ, ◌≤◌, ◌<◌, ◌≡◌, ◌≢◌, refl, sym, ◌∙◌, inl, inr, none, some, List, [], ◌∷◌, arith, length, All,
  Option-cases,
}
use simple_im.Base.Text.{Text, text_Eq, text_eq_iff}
use simple_im.Base.Text.Decimal.{
  to_string, IsDigit, to_string-IsDigit, length-to_string, to_string_injective,
}
use simple_im.Base.Map.{Map, get, remove, get-remove}
use simple_im.Hub.State.{ListenTokenState, HubInner}
use simple_im.Hub.Tokens.{with_token, mint}

-- `gen_range(10_000_000..=999_999_999_999)`
abbrev pub IsDraw : ℕ → Type 0
IsDraw d = (10000000 ≤ d) × (d ≤ 999999999999)

abbrev pub Distinct : List ℕ → Type 0
Distinct [] = Unit
Distinct (d ∷ ds) = All (λ e. e ≢ d) ds × Distinct ds

length-remove-le : (k : Text) (m : Map Text ListenTokenState) → length (remove k m) ≤ length m
unfolding remove
length-remove-le k [] = omega arith
length-remove-le k ((j, v) ∷ m) = ground (arith, length-remove-le k m)

-- Taking out a key that is there makes the map smaller.
length-remove-lt :
    (k : Text) (m : Map Text ListenTokenState) (v : ListenTokenState)
    → get k m ≡ some v
    → length (remove k m) < length m
unfolding get remove
length-remove-lt k [] v e = absurd (cc)
length-remove-lt k ((j, w) ∷ m) v e = ground (arith, length-remove-le k m, length-remove-lt k m v)

digits-between : (d : ℕ) → IsDraw d → (8 ≤ length (to_string d)) × (length (to_string d) ≤ 12)
digits-between d (lo, hi) = ground (
  arith,
  length-to_string 7 d,
  length-to_string 8 d,
  length-to_string 9 d,
  length-to_string 10 d,
  length-to_string 11 d,
)

-- What a minted token is: new, eight to twelve digits long, and the only change.
pub record Minted (h : HubInner) (st : ListenTokenState) (tok : Text) (h' : HubInner) : Type 0 where
  pub fresh : get tok h.listen_tokens ≡ none
  pub entered : h' ≡ with_token h tok st
  pub size : (8 ≤ length tok) × (length tok ≤ 12)
  pub digits : All IsDigit tok

minted :
    (h : HubInner) (st : ListenTokenState) (d : ℕ)
    → IsDraw d
    → get (to_string d) h.listen_tokens ≡ none
    → Minted h st (to_string d) (with_token h (to_string d) st)
minted h st d r f = record {
  fresh = f;
  entered = refl;
  size = digits-between d r;
  digits = to_string-IsDigit d;
}

-- A draw that agrees with the map `m` on every later draw is one step of the pigeonhole argument.
abbrev Agrees : Map Text ListenTokenState → Map Text ListenTokenState → ℕ → Type 0
Agrees m n d = get (to_string d) m ≡ get (to_string d) n

Agrees-without :
    (m n : Map Text ListenTokenState) (d e : ℕ)
    → IsDraw d × IsDraw e
    → e ≢ d
    → Agrees m n e
    → Agrees (remove (to_string d) m) n e
Agrees-without m n d e (p, q) ne a = ground (
  arith,
  get-remove (to_string d) (to_string e) m,
  text_eq_iff (to_string d) (to_string e),
  to_string_injective d e,
)

agree_without :
    (m n : Map Text ListenTokenState) (d : ℕ) (ds : List ℕ)
    → IsDraw d
    → All IsDraw ds
    → All (λ e. e ≢ d) ds
    → All (Agrees m n) ds
    → All (Agrees (remove (to_string d) m) n) ds
agree_without m n d [] r rs ne a = tt
agree_without m n d (e ∷ ds) r rs ne a =
    (Agrees-without m n d e (r, rs.0) ne.0 a.0, agree_without m n d ds r rs.1 ne.1 a.1)

mints :
    (h : HubInner) (st : ListenTokenState) (m : Map Text ListenTokenState) (ds : List ℕ)
    → All IsDraw ds
    → Distinct ds
    → All (Agrees m h.listen_tokens) ds
    → length m < length ds
    → (tok : Text) × (h' : HubInner) × (mint h st ds ≡ some (tok, h')) × Minted h st tok h'
unfolding mint
mints h st m [] r u a l = absurd (omega arith)
mints h st m (d ∷ ds) r u a l = elim (Option-cases (get (to_string d) h.listen_tokens)) [
  | inl f ↦ (to_string d, with_token h (to_string d) st, rw f refl, minted h st d r.0 f)
  | inr (v, f) ↦
      let shorter : length (remove (to_string d) m) < length ds =
        ground (arith, length-remove-lt (to_string d) m v, a.0) in
      rw f (
        mints h st (remove (to_string d) m) ds r.1 u.1
          (agree_without m h.listen_tokens d ds r.0 r.1 u.0 a.1) shorter)
]

agree_self : (m : Map Text ListenTokenState) (ds : List ℕ) → All (Agrees m m) ds
agree_self m [] = tt
agree_self m (d ∷ ds) = (refl, agree_self m ds)

-- The loop that mints a token ends: more different draws than there are tokens are enough. The
-- token was unknown, has eight to twelve digits, and is entered with its first state; nothing else
-- of the hub changes.
pub mint_lem :
    (h : HubInner) (st : ListenTokenState) (draws : List ℕ)
    → All IsDraw draws
    → Distinct draws
    → length h.listen_tokens < length draws
    → (tok : Text) × (h' : HubInner) × (mint h st draws ≡ some (tok, h')) × Minted h st tok h'
mint_lem h st draws r u l =
    mints h st h.listen_tokens draws r u (agree_self h.listen_tokens draws) l

-- What the loop returns is a minted token.
pub mint-Minted :
    (h : HubInner) (st : ListenTokenState) (draws : List ℕ) (tok : Text) (h' : HubInner)
    → All IsDraw draws
    → mint h st draws ≡ some (tok, h')
    → Minted h st tok h'
unfolding mint
mint-Minted h st [] tok h' r e = absurd (cc)
mint-Minted h st (d ∷ ds) tok h' r e = elim (Option-cases (get (to_string d) h.listen_tokens)) [
  | inl f ↦
      let answer : some (to_string d, with_token h (to_string d) st) ≡ some (tok, h') =
        sym (rw f refl) ∙ e in
      let token : to_string d ≡ tok = cc answer in
      let hub : with_token h (to_string d) st ≡ h' = cc answer in
      rw (← hub, ← token) (minted h st d r.0 f)
  | inr (v, f) ↦ mint-Minted h st ds tok h' r.1 (sym (rw f refl) ∙ e)
]
