-- ===== src/Examples/Meeting.antt =====
-- Examples for rooms.rs: Alice is in the room r until 500.
use simple_im.Base.{◌≡◌, refl, ◌&&◌, ◌||◌, some, [], ◌∷◌, arith, any, ltb, if◌then◌else◌, ◌==◌}
use simple_im.Base.Text.{Text, text_Eq, text_eq, codes}
use simple_im.Base.Map.{get}
use simple_im.Rooms.{
  RoomStore, Room, returned, panicked, instant_end, active_names, join, shares_room,
}
use simple_im.Rooms.Order.{IsSorted}
use simple_im.Rooms.Laws.{IsValid, present, in_room, joined, joined_until, join_lem}
use simple_im.Rooms.Shared.{together, shares_room_lem}
use simple_im.Examples.Sample.{alice, bob}

abbrev r : Text
r = codes "r"

abbrev room : Room
room = record { members = (alice, record { expires_at = 500 }) ∷ [] }

abbrev store : RoomStore
store = record { inner = (r, room) ∷ [] }

store-IsValid : IsValid store
unfolding get
store-IsValid = record { distinct = (refl, tt); members_distinct = ((refl, tt), tt) }

known : get r store.inner ≡ some room
unfolding get text_eq
known = refl

join_example :
    ((join store 10 11 r bob (some 60)).0 ≡ (
      if ltb (joined_until store store-IsValid 10 r room known 11 bob (some 60)) instant_end
      then returned (active_names (joined store store-IsValid 10 r room known 11 bob (some 60)))
      else panicked))
    × IsSorted (active_names (joined store store-IsValid 10 r room known 11 bob (some 60)))
    × (any
          (text_eq bob)
          (active_names (joined store store-IsValid 10 r room known 11 bob (some 60)))
        ≡ (bob == bob || present 10 bob room))
    × (in_room (join store 10 11 r bob (some 60)).1 20 r bob ≡ (
        if ltb (joined_until store store-IsValid 10 r room known 11 bob (some 60)) instant_end
          && (r == r)
          && (bob == bob)
        then ltb 20 (joined_until store store-IsValid 10 r room known 11 bob (some 60))
        else in_room store 20 r bob))
join_example = join_lem store store-IsValid 10 r room known 11 bob (some 60) r bob 20 (omega arith)

shares_room_example :
    ((shares_room store 10 alice bob).0 ≡ any (together 10 alice bob) store.inner)
    × ((shares_room store 10 bob alice).0 ≡ any (together 10 alice bob) store.inner)
    × (in_room (shares_room store 10 alice bob).1 20 r alice ≡ in_room store 20 r alice)
shares_room_example = shares_room_lem store 10 alice bob r alice 20 store-IsValid (omega arith)
