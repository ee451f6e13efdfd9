-- ===== src/Rooms/Shared.antt =====
-- Leaving a room, and whether two participants share one (rooms.rs).
use simple_im.Base.{
  ℕ, ◌≤◌, ◌≡◌, refl, ◌∙◌, inl, inr, Bool, true, false, ◌&&◌, none, some, [], ◌∷◌, arith,
  if◌then◌else◌, ◌==◌, any, All, Bool-cases, Option-cases,
}
use simple_im.Base.Text.{Text, text_Eq, text_eq_iff}
use simple_im.Base.Map.{Map, get, remove, get-remove}
use simple_im.Base.Map.Distinct.{Distinct}
use simple_im.Rooms.{
  Room, RoomMember, RoomStore, prune, put_room, leave, is_empty, left, visit_rooms, shares_room,
}
use simple_im.Rooms.Laws.{
  IsValid, present, in_room, in_room-put_room, present-prune, contains_key-prune, room-Distinct,
}

empty_absent :
    (later : ℕ) (n : Text) (m : Map Text RoomMember)
    → is_empty m ≡ true
    → present later n (record { members = m }) ≡ false
unfolding get
empty_absent later n [] e = refl
empty_absent later n (x ∷ m) e = absurd (ground arith)

module _ (s : RoomStore) (v : IsValid s) (now : ℕ) (room_id name : Text) where
  module _ (room : Room) (h : get room_id s.inner ≡ some room) where
    left_seen :
        (r n : Text) (later : ℕ)
        → now ≤ later
        → in_room (put_room s room_id (left now name room)) later r n
          ≡ (if (room_id == r) && (name == n) then false else in_room s later r n)
    left_seen r n later le = ground (
      arith,
      in_room-put_room s room_id r n later room (left now name room) h,
      get-remove name n (prune now room).members,
      present-prune now later n room (room-Distinct s v now room_id room h) le,
      text_eq_iff room_id r,
    )

    -- A room that is left empty shows nobody, kept or removed.
    removed_seen :
        (r n : Text) (later : ℕ)
        → is_empty (left now name room).members ≡ true
        → in_room
            (record { inner = remove room_id (put_room s room_id (left now name room)).inner })
            later
            r
            n
          ≡ in_room (put_room s room_id (left now name room)) later r n
    removed_seen r n later e = ground (
      arith,
      get-remove room_id r (put_room s room_id (left now name room)).inner,
      in_room-put_room s room_id r n later room (left now name room) h,
      empty_absent later n (left now name room).members e,
      text_eq_iff room_id r,
    )

    leave_seen :
        (r n : Text) (later : ℕ)
        → now ≤ later
        → in_room (leave s now room_id name) later r n
          ≡ (if (room_id == r) && (name == n) then false else in_room s later r n)
    unfolding leave
    leave_seen r n later le = elim (Bool-cases (is_empty (left now name room).members)) [
      | inl e ↦ ground (arith, removed_seen r n later e, left_seen r n later le)
      | inr e ↦ ground (arith, left_seen r n later le)
    ]

  leave_unknown :
      (r n : Text) (later : ℕ)
      → get room_id s.inner ≡ none
      → in_room (leave s now room_id name) later r n
        ≡ (if (room_id == r) && (name == n) then false else in_room s later r n)
  unfolding leave
  leave_unknown r n later e = ground (arith, text_eq_iff room_id r)

  -- After a participant has left a room, whether the room exists or not and whether they were in
  -- it or not, they are not in it, and every other membership is as before.
  leave_lem :
      (r n : Text) (later : ℕ)
      → now ≤ later
      → in_room (leave s now room_id name) later r n
        ≡ (if (room_id == r) && (name == n) then false else in_room s later r n)
  leave_lem r n later le = elim (Option-cases (get room_id s.inner)) [
    | inl e ↦ leave_unknown r n later e
    | inr (room, h) ↦ leave_seen room h r n later le
  ]

-- Some room has both, at the time.
abbrev pub together : ℕ → Text → Text → Text × Room → Bool
together now a b e = present now a e.1 && present now b e.1

shared_answer :
    (now : ℕ) (a b : Text) (rooms : Map Text Room)
    → All (λ e. Distinct e.1.members) rooms
    → (visit_rooms now a b rooms).0 ≡ any (together now a b) rooms
unfolding visit_rooms any
shared_answer now a b [] d = refl
shared_answer now a b ((id, room) ∷ rooms) d = ground (
  arith,
  contains_key-prune now a room d.0,
  contains_key-prune now b room d.0,
  shared_answer now a b rooms d.1,
)

-- The rooms that the loop has pruned look as before.
shared_seen :
    (now : ℕ) (a b r n : Text) (later : ℕ) (rooms : Map Text Room)
    → now ≤ later
    → All (λ e. Distinct e.1.members) rooms
    → in_room (record { inner = (visit_rooms now a b rooms).1 }) later r n
      ≡ in_room (record { inner = rooms }) later r n
unfolding visit_rooms get
shared_seen now a b r n later [] le d = refl
shared_seen now a b r n later ((id, room) ∷ rooms) le d =
    ground
      (arith, present-prune now later n room d.0 le, shared_seen now a b r n later rooms le d.1)

together_comm :
    (now : ℕ) (a b : Text) (rooms : Map Text Room)
    → any (together now b a) rooms ≡ any (together now a b) rooms
unfolding any
together_comm now a b [] = refl
together_comm now a b (e ∷ rooms) = ground (arith, together_comm now a b rooms)

-- Two participants share a room exactly when some room has both of them at that time, in whichever
-- order they are given, and asking changes nobody's membership.
pub shares_room_lem :
    (s : RoomStore) (now : ℕ) (a b r n : Text) (later : ℕ)
    → IsValid s
    → now ≤ later
    → ((shares_room s now a b).0 ≡ any (together now a b) s.inner)
      × ((shares_room s now b a).0 ≡ any (together now a b) s.inner)
      × (in_room (shares_room s now a b).1 later r n ≡ in_room s later r n)
unfolding shares_room
shares_room_lem s now a b r n later v le = (
  shared_answer now a b s.inner v.members_distinct,
  shared_answer now b a s.inner v.members_distinct ∙ together_comm now a b s.inner,
  shared_seen now a b r n later s.inner le v.members_distinct,
)
