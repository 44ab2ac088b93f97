-- ===== src/Call/Presence.antt =====
-- Presence, ref-counted across a user's sockets: the first part of
-- apps/api/src/modules/realtime/call.service.ts.
use vertxing.Prelude.{String, Bool, if◌then◌else◌}
use vertxing.Prelude.Int.{is_one, is_nonpositive}
use vertxing.Redis.Prog.{Prog, ret, ◌>>=◌, ◌>>◌}
use vertxing.Redis.Service.{delete, add_to_set, remove_from_set, set_has, increment, decrement}
use vertxing.Call.Types.{online_key, presence_count_key}

unfoldable pub mark_online : String → Prog (Unit {0})
mark_online user_id = do
  count ← increment (presence_count_key user_id)
  if is_one count then add_to_set online_key user_id else ret tt

unfoldable pub mark_offline : String → Prog (Unit {0})
mark_offline user_id = do
  count ← decrement (presence_count_key user_id)
  if is_nonpositive count
      then (do remove_from_set online_key user_id; delete (presence_count_key user_id))
      else ret tt

unfoldable pub is_online : String → Prog Bool
is_online user_id = set_has online_key user_id
