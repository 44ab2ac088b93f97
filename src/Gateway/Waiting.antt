-- ===== src/Gateway/Waiting.antt =====
-- The handlers of the waiting room, of apps/api/src/modules/realtime/events.gateway.ts, each of a
-- socket whose user is authenticated.
use vertxing.Prelude.{String, not, none, some, [], ◌∷◌, if◌then◌else◌}
use vertxing.WaitingRoom.{knock, cancel_knock, admit, deny, list_waiting}
use vertxing.Call.Types.{CallParty}
use vertxing.Meetings.World.{App, ret, lift, ◌>>=◌, ◌>>◌}
use vertxing.Meetings.Service.{can_manage, is_waiting_room_meeting}
use vertxing.Gateway.{
  SocketData, to_self, to_room, joins, waiting_list, let_in, turned_away, Reaction, user_room,
  host_room, is_waiting, broadcast_waiting_list,
}

unfoldable pub on_host_watch : SocketData → CallParty → String → App Reaction
unfolding can_manage host_room
on_host_watch client user room_name = do
  may ← can_manage room_name user.user_id
  if not may then ret (client, []) else (do
    waiting ← lift (list_waiting room_name)
    ret (client, joins (host_room room_name) ∷ to_self (waiting_list room_name waiting) ∷ []))

unfoldable pub on_knock : SocketData → CallParty → String → App Reaction
unfolding is_waiting_room_meeting broadcast_waiting_list
on_knock client user room_name = do
  gated ← is_waiting_room_meeting room_name
  if not gated then ret (client, to_self (let_in room_name) ∷ []) else (do
    lift (knock room_name user.user_id user.name)
    sent ← broadcast_waiting_list room_name
    ret (record client { knocking_room = some room_name }, sent))

unfoldable pub on_cancel_knock : SocketData → CallParty → String → App Reaction
unfolding broadcast_waiting_list
on_cancel_knock client user room_name = do
  lift (cancel_knock room_name user.user_id)
  sent ← broadcast_waiting_list room_name
  ret (record client { knocking_room = none }, sent)

unfoldable pub on_admit : SocketData → CallParty → String → String → App Reaction
unfolding can_manage is_waiting broadcast_waiting_list user_room
on_admit client user room_name identity = do
  may ← can_manage room_name user.user_id
  if not may then ret (client, []) else (do
    knocking ← is_waiting room_name identity
    if not knocking then ret (client, []) else (do
      lift (admit room_name identity)
      sent ← broadcast_waiting_list room_name
      ret (client, to_room (user_room identity) (let_in room_name) ∷ sent)))

unfoldable pub on_deny : SocketData → CallParty → String → String → App Reaction
unfolding can_manage is_waiting broadcast_waiting_list user_room
on_deny client user room_name identity = do
  may ← can_manage room_name user.user_id
  if not may then ret (client, []) else (do
    knocking ← is_waiting room_name identity
    if not knocking then ret (client, []) else (do
      lift (deny room_name identity)
      sent ← broadcast_waiting_list room_name
      ret (client, to_room (user_room identity) (turned_away room_name) ∷ sent)))
