-- ===== src/Hub/Visible.antt =====
-- delivery.rs: what a participant may see of others. Presence, the roster, the lists of grants, and
-- the streams that are counted by name.
pub mod Lookup
use simple_im.Base.{
  ℕ, ◌+◌, ◌-◌, Bool, true, false, not, ◌&&◌, ◌||◌, Option, none, some, List, [], ◌∷◌, map,
  if◌then◌else◌, ◌==◌, unwrap_or, or_else, option_map, ltb, leb,
}
use simple_im.Base.Text.{Text, text_Eq}
use simple_im.Base.Map.{get, insert, remove, update}
use simple_im.Error.{
  Result, ok, err, is_ok, ◌>>=◌, auth_failed, recipient_unknown, token_rejected, token_revoked,
}
use simple_im.Trust.Grant.{Grant}
use simple_im.Trust.Check.{check_grant_directed_with_names}
use simple_im.Trust.Listing.{GrantListItem, AllGrantItem, list_grants_for_name, list_all_grants}
use simple_im.Registry.{
  PresenceScope, hidden, is_online, presence_scope, presence_scope_unconditional,
}
use simple_im.Rooms.{RoomStore, shares_room}
use simple_im.Rooms.Order.{text_le}
use simple_im.Hub.Sets.{contains}
use simple_im.Hub.State.{
  ListenTokenState, ParticipantState, HubInner, is_sse_alive_in_hub, validate_governor_token,
}
use simple_im.Hub.Denial.{is_denial_active}
use simple_im.Hub.Peers.{Env, is_settle_pending}

unfoldable sse_open : HubInner → Text → HubInner
sse_open h name = record h {
  active_sse_connections =
      insert name (unwrap_or (get name h.active_sse_connections) 0 + 1) h.active_sse_connections;
}

-- `saturating_sub(1)`, and the entry of a count that reaches zero is taken out.
unfoldable sse_close : HubInner → Text → HubInner
sse_close h name = elim (get name h.active_sse_connections) [
  | none ↦ h
  | some count ↦
      if leb count 1
      then record h { active_sse_connections = remove name h.active_sse_connections }
      else record h { active_sse_connections = update name (λ c. c - 1) h.active_sse_connections }
]

abbrev has_stream : HubInner → Text → Bool
has_stream h name = ltb 0 (unwrap_or (get name h.active_sse_connections) 0)

unfoldable pub is_online_effective : HubInner → ℕ → Text → Bool
is_online_effective h now name = has_stream h name || is_online h.registry now name

unfoldable presence_scope_effective : HubInner → ℕ → Text → Option PresenceScope
presence_scope_effective h now name =
    if has_stream h name
    then presence_scope_unconditional h.registry name
    else presence_scope h.registry now name

unfoldable pub presence : Env → HubInner → Text → Bool
unfolding is_online_effective is_settle_pending
presence env h name = is_online_effective h env.now name || is_settle_pending env h name

unfoldable pub list_grants_for_token : HubInner → ℕ → Text → Result (List GrantListItem)
unfolding list_grants_for_name
list_grants_for_token h now token = elim (get token h.token_to_name) [
  | none ↦ err auth_failed
  | some caller_name ↦ ok (list_grants_for_name h.trust now caller_name)
]

unfoldable pub list_all_grants_gov : HubInner → ℕ → Text → Option Text → Result (List AllGrantItem)
unfolding list_all_grants
list_all_grants_gov h now gov participant_filter = do
  _ ← validate_governor_token h gov
  ok (list_all_grants h.trust now participant_filter)

pub record ParticipantInfo : Type 0 where
  pub name : Text
  pub identity : Text
  pub online : Bool

-- A participant that listens is seen by its token, another by its registration.
abbrev is_listed_online : HubInner → ℕ → Text → Bool
is_listed_online h now name = elim (get name h.name_to_token) [
  | some tok ↦
      not (unwrap_or (option_map (λ s. s.hidden) (get tok h.listen_tokens)) false)
      && (is_sse_alive_in_hub tok h.sse_connections || is_online h.registry now name)
  | none ↦ elim (presence_scope_effective h now name) [
    | none ↦ false
    | some hidden ↦ false
    | some scope ↦ is_online_effective h now name
  ]
]

abbrev info : HubInner → ℕ → Text × ParticipantState → ParticipantInfo
info h now e = record { name = e.0; identity = e.1.identity; online = is_listed_online h now e.0 }

insert_by_name : ParticipantInfo → List ParticipantInfo → List ParticipantInfo
insert_by_name a [] = a ∷ []
insert_by_name a (b ∷ bs) = if text_le a.name b.name then a ∷ b ∷ bs else b ∷ insert_by_name a bs

unfoldable sort_by_name : List ParticipantInfo → List ParticipantInfo
unfolding insert_by_name
sort_by_name [] = []
sort_by_name (a ∷ infos) = insert_by_name a (sort_by_name infos)

unfoldable pub list_participants : HubInner → ℕ → Text → Result (List ParticipantInfo)
unfolding sort_by_name is_online_effective presence_scope_effective
list_participants h now token =
    if unwrap_or (option_map (λ s. s.revoked) (get token h.listen_tokens)) true
    then err auth_failed
    else ok (sort_by_name (map (info h now) h.agents))

-- A grant covers messages from the one to the other, or back.
abbrev pub has_grant_between : HubInner → ℕ → Text → Text → Option Text → Option Text → Bool
has_grant_between h now from_id to_id from_name to_name =
    is_ok (check_grant_directed_with_names h.trust now from_id to_id from_name to_name)
    || is_ok (check_grant_directed_with_names h.trust now to_id from_id to_name from_name)

-- The identity of a name: its token, or the identity of its agent.
abbrev pub target_identity : HubInner → Text → Option Text
target_identity h name =
    or_else (get name h.name_to_token) (option_map (λ a. a.identity) (get name h.agents))

unfoldable pub has_any_grant_with : HubInner → ℕ → Text → Text → Bool
has_any_grant_with h now from_token to_name = elim (get from_token h.listen_tokens) [
  | none ↦ false
  | some state ↦ if state.revoked then false else elim (target_identity h to_name) [
    | none ↦ false
    | some to_id ↦ has_grant_between h now from_token to_id state.name (some to_name)
  ]
]

-- The name behind the token of a recipient.
unfoldable pub recipient_of_token : HubInner → Text → Result Text
recipient_of_token h to_token = elim (get to_token h.listen_tokens) [
  | none ↦ err recipient_unknown
  | some state ↦
      if state.revoked
      then err recipient_unknown
      else elim state.name [ none ↦ err recipient_unknown | some n ↦ ok n ]
]
