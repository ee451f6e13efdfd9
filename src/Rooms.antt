-- ===== src/Rooms.antt =====
-- rooms.rs: rooms in which participants find one another. The clock is an argument; an operation
-- that reads it twice takes both readings. The random words of a room id are arguments.
pub mod Order
pub mod Laws
pub mod Shared
use Prim.Native.Nat.{bit_and, bit_or}
use simple_im.Base.{
  ℕ, suc, zero, ◌+◌, ◌-◌, ◌*◌, ◌/◌, ◌%◌, ◌^◌, Bool, true, false, not, ◌&&◌, Option, none, some,
  List, [], ◌∷◌, ◌++◌, ltb, leb, eqb, if◌then◌else◌, ◌==◌, unwrap_or, is_some, retain, from_secs,
  nanos,
}
use simple_im.Base.Text.{Text, text_Eq}
use simple_im.Base.Map.{Map, get, insert, remove, update, contains_key, keys}
use Order.{sort}

abbrev pub default_ttl_secs : ℕ
default_ttl_secs = 300

pub record RoomMember : Type 0 where
  pub expires_at : ℕ

pub record Room : Type 0 where
  pub members : Map Text RoomMember

pub data RoomError : Type 0 where
  room_not_found not_member : RoomError

pub record RoomStore : Type 0 where
  pub inner : Map Text Room

-- A call returns, with a result or an error, or the addition of a duration to an instant panics.
pub data Outcome (A : Type 0) : Type 0 where
  returned : A → Outcome A
  refused : RoomError → Outcome A
  panicked : Outcome A

-- `Instant + Duration` panics past the seconds of an `i64`.
abbrev pub instant_end : ℕ
instant_end = 9223372036854775808 * nanos

abbrev pub new_room : Room
new_room = record { members = [] }

abbrev pub alive : ℕ → Text × RoomMember → Bool
alive now e = ltb now e.1.expires_at

unfoldable pub prune : ℕ → Room → Room
unfolding retain
prune now room = record { members = retain (alive now) room.members }

unfoldable pub active_names : Room → List Text
active_names room = sort (keys room.members)

abbrev hex_digit : ℕ → ℕ
hex_digit d = if ltb d 10 then b'0' + d else b'a' + (d - 10)

-- `{:0wx}` of a number that has at most `w` hexadecimal digits.
hex_fixed : ℕ → ℕ → Text
hex_fixed zero n = []
hex_fixed (suc w) n = hex_fixed w (n / 16) ++ hex_digit (n % 16) ∷ []

unfoldable pub gen_room_id : ℕ → ℕ → Text
unfolding hex_fixed
gen_room_id hi lo =
    let p1 = hi / 2 ^ 32 % 2 ^ 32 in
    let p2 = bit_and (hi / 2 ^ 16) 0xffff % 2 ^ 16 in
    let p3 = bit_or (bit_and hi 0x0fff) 0x4000 % 2 ^ 16 in
    let p4 = bit_or (bit_and (lo / 2 ^ 48) 0x3fff) 0x8000 % 2 ^ 16 in
    let p5 = bit_and lo 0xffffffffffff in
    hex_fixed 8 p1
    ++ b'-' ∷ hex_fixed 4 p2
    ++ b'-' ∷ hex_fixed 4 p3
    ++ b'-' ∷ hex_fixed 4 p4
    ++ b'-' ∷ hex_fixed 12 p5

unfoldable pub create : RoomStore → ℕ → ℕ → Text × RoomStore
create s hi lo = let id = gen_room_id hi lo in (id, record { inner = insert id new_room s.inner })

-- `rooms.get_mut(room_id)` followed by a write of the room.
abbrev pub put_room : RoomStore → Text → Room → RoomStore
put_room s room_id room = record { inner = update room_id (λ _. room) s.inner }

unfoldable pub join : RoomStore → ℕ → ℕ → Text → Text → Option ℕ → Outcome (List Text) × RoomStore
join s now now' room_id name ttl_secs = elim (get room_id s.inner) [
  | none ↦ (refused room_not_found, s)
  | some room ↦
      let pruned = prune now room in
      let expires = now' + from_secs (unwrap_or ttl_secs default_ttl_secs) in
      let joined : Room = record {
        members = insert name (record { expires_at = expires }) pruned.members;
      } in
      if ltb expires instant_end
      then (returned (active_names joined), put_room s room_id joined)
      else (panicked, put_room s room_id pruned)
]

unfoldable pub members : RoomStore → ℕ → Text → Text → Outcome (List Text) × RoomStore
members s now room_id caller_name = elim (get room_id s.inner) [
  | none ↦ (refused room_not_found, s)
  | some room ↦
      let pruned = prune now room in
      if not (contains_key caller_name pruned.members)
      then (refused not_member, put_room s room_id pruned)
      else (returned (active_names pruned), put_room s room_id pruned)
]

abbrev pub is_empty : Map Text RoomMember → Bool
is_empty [] = true
is_empty (e ∷ m) = false

abbrev pub left : ℕ → Text → Room → Room
left now name room = record { members = remove name (prune now room).members }

unfoldable pub leave : RoomStore → ℕ → Text → Text → RoomStore
leave s now room_id name = elim (get room_id s.inner) [
  | none ↦ s
  | some room ↦
      let room' = left now name room in
      let s' = put_room s room_id room' in
      if is_empty room'.members then record { inner = remove room_id s'.inner } else s'
]

abbrev pub has_both : Text → Text → Room → Bool
has_both name_a name_b room = contains_key name_a room.members && contains_key name_b room.members

-- The loop prunes the rooms that it visits and leaves early.
unfoldable pub visit_rooms : ℕ → Text → Text → Map Text Room → Bool × Map Text Room
visit_rooms now name_a name_b [] = (false, [])
visit_rooms now name_a name_b ((id, room) ∷ rooms) =
    let pruned = prune now room in
    let rest = visit_rooms now name_a name_b rooms in
    if has_both name_a name_b pruned
    then (true, (id, pruned) ∷ rooms)
    else (rest.0, (id, pruned) ∷ rest.1)

unfoldable pub shares_room : RoomStore → ℕ → Text → Text → Bool × RoomStore
unfolding visit_rooms
shares_room s now name_a name_b =
    let (shared, inner) = visit_rooms now name_a name_b s.inner in
    (shared, record { inner = inner })
