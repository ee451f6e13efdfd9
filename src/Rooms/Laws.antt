-- ===== src/Rooms/Laws.antt =====
-- Who is in a room (rooms.rs) at a time, and what joining, listing and leaving do to it.
use simple_im.Base.{
  ℕ, ◌+◌, ◌≤◌, ◌≡◌, refl, ap, ◌∙◌, Bool, false, ◌&&◌, ◌||◌, Option, none, some, [], ◌∷◌, arith, ltb,
  if◌then◌else◌, ◌==◌, any, All, unwrap_or, from_secs,
}
use simple_im.Base.Text.{Text, text_eq, text_Eq, text_eq_iff}
use simple_im.Base.Map.{Map, get, insert, contains_key, keys, get-insert, get-update}
use simple_im.Base.Map.Distinct.{Distinct, get-retain, All-get}
use simple_im.Rooms.{
  Room, RoomMember, RoomStore, not_member, returned, refused, panicked, instant_end,
  default_ttl_secs, alive, prune, active_names, put_room, join, members,
}
use simple_im.Rooms.Order.{IsSorted, sort-IsSorted, any-sort}

-- The participant is in the room at that time.
abbrev pub present : ℕ → Text → Room → Bool
present now name room = elim (get name room.members) [
  | none ↦ false
  | some m ↦ ltb now m.expires_at
]

abbrev pub in_room : RoomStore → ℕ → Text → Text → Bool
in_room s now room_id name = elim (get room_id s.inner) [
  | none ↦ false
  | some room ↦ present now name room
]

-- One room for each id, and in a room one record for each name.
pub record IsValid (s : RoomStore) : Type 0 where
  pub distinct : Distinct s.inner
  pub members_distinct : All (λ e. Distinct e.1.members) s.inner

pub present-prune :
    (t later : ℕ) (name : Text) (room : Room)
    → Distinct room.members
    → t ≤ later
    → present later name (prune t room) ≡ present later name room
unfolding prune
present-prune t later name room d h = ground (arith, get-retain (alive t) name room.members d)

pub contains_key-prune :
    (now : ℕ) (name : Text) (room : Room)
    → Distinct room.members
    → contains_key name (prune now room).members ≡ present now name room
unfolding prune
contains_key-prune now name room d = ground (arith, get-retain (alive now) name room.members d)

any-keys : (n : Text) (m : Map Text RoomMember) → any (text_eq n) (keys m) ≡ contains_key n m
unfolding any get
any-keys n [] = refl
any-keys n ((j, v) ∷ m) = ground (arith, any-keys n m, text_eq_iff n j, text_eq_iff j n)

-- The list is sorted, and holds exactly the keys of the room.
active_names_lem :
    (room : Room)
    → IsSorted (active_names room)
      × ((n : Text) → any (text_eq n) (active_names room) ≡ contains_key n room.members)
unfolding active_names
active_names_lem room = (
  sort-IsSorted (keys room.members),
  λ n. any-sort n (keys room.members) ∙ any-keys n room.members,
)

pub in_room-put_room :
    (s : RoomStore) (room_id r n : Text) (later : ℕ) (old room : Room)
    → get room_id s.inner ≡ some old
    → in_room (put_room s room_id room) later r n
      ≡ (if room_id == r then present later n room else in_room s later r n)
in_room-put_room s room_id r n later old room h =
    ground (arith, get-update room_id r (λ _. room) s.inner, text_eq_iff room_id r)

module _ (s : RoomStore) (v : IsValid s) (now : ℕ) (room_id : Text) (room : Room)
    (h : get room_id s.inner ≡ some room) where
  pub room-Distinct : Distinct room.members
  room-Distinct =
      All-get (λ (r : Room). Distinct r.members) room_id s.inner room v.members_distinct h

  -- Pruning a room is not seen by anyone, then or later.
  pruned_unseen :
      (r n : Text) (later : ℕ)
      → now ≤ later
      → in_room (put_room s room_id (prune now room)) later r n ≡ in_room s later r n
  pruned_unseen r n later le = ground (
    arith,
    in_room-put_room s room_id r n later room (prune now room) h,
    present-prune now later n room room-Distinct le,
    text_eq_iff room_id r,
  )

  -- The names that a listing of the pruned room gives.
  pruned_names : (n : Text) → any (text_eq n) (active_names (prune now room)) ≡ present now n room
  pruned_names n =
      (active_names_lem (prune now room)).1 n ∙ contains_key-prune now n room room-Distinct

  members_state :
      (caller : Text) → (members s now room_id caller).1 ≡ put_room s room_id (prune now room)
  unfolding members
  members_state caller = ground arith

  members_answer :
      (caller : Text)
      → (members s now room_id caller).0 ≡ (
          if present now caller room
          then returned (active_names (prune now room))
          else refused not_member)
  unfolding members
  members_answer caller = ground (arith, contains_key-prune now caller room room-Distinct)

  -- A participant who asks for the members of a room is answered exactly when in it, with the
  -- sorted names of those in it; asking changes nobody's membership.
  members_lem :
      (caller : Text)
      → ((members s now room_id caller).0 ≡ (
          if present now caller room
          then returned (active_names (prune now room))
          else refused not_member))
        × IsSorted (active_names (prune now room))
        × ((n : Text) → any (text_eq n) (active_names (prune now room)) ≡ present now n room)
        × ((r n : Text) (later : ℕ)
            → now ≤ later
            → in_room (members s now room_id caller).1 later r n ≡ in_room s later r n)
  members_lem caller = (
    members_answer caller,
    (active_names_lem (prune now room)).0,
    pruned_names,
    λ r n later le.
        ap (λ u. in_room u later r n) (members_state caller) ∙ pruned_unseen r n later le,
  )

  module _ (now' : ℕ) (name : Text) (ttl_secs : Option ℕ) where
    -- When the membership ends.
    abbrev pub joined_until : ℕ
    joined_until = now' + from_secs (unwrap_or ttl_secs default_ttl_secs)

    abbrev pub joined : Room
    joined = record {
      members = insert name (record { expires_at = joined_until }) (prune now room).members;
    }

    join_eq : join s now now' room_id name ttl_secs ≡ (
        if ltb joined_until instant_end
        then (returned (active_names joined), put_room s room_id joined)
        else (panicked, put_room s room_id (prune now room)))
    unfolding join
    join_eq = ground arith

    joined_names :
        (n : Text) → any (text_eq n) (active_names joined) ≡ (name == n || present now n room)
    joined_names n =
        (active_names_lem joined).1 n
        ∙ ground (
          arith,
          get-insert name n (record { expires_at = joined_until }) (prune now room).members,
          contains_key-prune now n room room-Distinct,
        )

    joined_seen :
        (r n : Text) (later : ℕ)
        → now ≤ later
        → in_room (put_room s room_id joined) later r n
          ≡ (if (room_id == r) && (name == n) then ltb later joined_until else in_room s later r n)
    joined_seen r n later le = ground (
      arith,
      in_room-put_room s room_id r n later room joined h,
      get-insert name n (record { expires_at = joined_until }) (prune now room).members,
      present-prune now later n room room-Distinct le,
      text_eq_iff room_id r,
    )

    -- Joining a room that exists, while the end of the membership is an instant, answers the
    -- sorted names of those in the room and of the caller. It makes the caller a member until that
    -- end, and changes no other membership. Otherwise the call panics and changes no membership.
    pub join_lem :
        (r n : Text) (later : ℕ)
        → now ≤ later
        → ((join s now now' room_id name ttl_secs).0
            ≡ (if ltb joined_until instant_end then returned (active_names joined) else panicked))
          × IsSorted (active_names joined)
          × (any (text_eq n) (active_names joined) ≡ (name == n || present now n room))
          × (in_room (join s now now' room_id name ttl_secs).1 later r n ≡ (
              if ltb joined_until instant_end && (room_id == r) && (name == n)
              then ltb later joined_until
              else in_room s later r n))
    join_lem r n later le = ground (
      arith,
      join_eq,
      (active_names_lem joined).0,
      joined_names n,
      joined_seen r n later le,
      pruned_unseen r n later le,
    )
