-- ===== src/WaitingRoom.antt =====
-- Who waits for, is let into and is kept out of a meeting:
-- apps/api/src/modules/meetings/waiting-room.service.ts, with `WaitingParticipant` of
-- packages/shared/src/types/realtime.types.ts.
pub mod Laws
pub mod History
mod Tests
use Prim.Native.String.{◌++◌ as cat}
use vertxing.Prelude.{ℕ, ◌*◌, String, Bool, List, [], ◌∷◌}
use vertxing.Redis.Prog.{Prog, ret, ◌>>=◌, ◌>>◌}
use vertxing.Redis.Service.{
  delete, add_to_set, remove_from_set, set_has, hash_set, hash_delete, hash_get_all, expire,
}

pub record WaitingParticipant : Type 0 where
  pub identity : String
  pub name : String

abbrev pub ttl_seconds : ℕ
ttl_seconds = 60 * 60 * 4

unfoldable pub waiting_key : String → String
waiting_key room_name = cat "waiting:room:" room_name

unfoldable pub admitted_key : String → String
admitted_key room_name = cat "admitted:room:" room_name

unfoldable pub denied_key : String → String
denied_key room_name = cat "denied:room:" room_name

unfoldable pub knock : String → String → String → Prog (Unit {0})
knock room_name identity name = do
  hash_set (waiting_key room_name) identity name
  expire (waiting_key room_name) ttl_seconds

unfoldable pub cancel_knock : String → String → Prog (Unit {0})
cancel_knock room_name identity = hash_delete (waiting_key room_name) identity

unfoldable pub admit : String → String → Prog (Unit {0})
admit room_name identity = do
  add_to_set (admitted_key room_name) identity
  expire (admitted_key room_name) ttl_seconds
  hash_delete (waiting_key room_name) identity
  remove_from_set (denied_key room_name) identity

unfoldable pub deny : String → String → Prog (Unit {0})
deny room_name identity = do
  hash_delete (waiting_key room_name) identity
  remove_from_set (admitted_key room_name) identity

unfoldable pub block : String → String → Prog (Unit {0})
block room_name identity = do
  add_to_set (denied_key room_name) identity
  expire (denied_key room_name) ttl_seconds
  remove_from_set (admitted_key room_name) identity
  hash_delete (waiting_key room_name) identity

unfoldable pub is_admitted : String → String → Prog Bool
is_admitted room_name identity = set_has (admitted_key room_name) identity

unfoldable pub is_denied : String → String → Prog Bool
is_denied room_name identity = set_has (denied_key room_name) identity

unfoldable pub waiting_participants : List (String × String) → List WaitingParticipant
waiting_participants [] = []
waiting_participants ((identity, name) ∷ entries) =
    record { identity = identity; name = name } ∷ waiting_participants entries

unfoldable pub list_waiting : String → Prog (List WaitingParticipant)
list_waiting room_name = do
  map ← hash_get_all (waiting_key room_name)
  ret (waiting_participants map)

unfoldable pub clear_room : String → Prog (Unit {0})
clear_room room_name = do
  delete (waiting_key room_name)
  delete (admitted_key room_name)
  delete (denied_key room_name)
