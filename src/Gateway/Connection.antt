-- ===== src/Gateway/Connection.antt =====
-- How a socket comes and goes: `afterInit`, `handleConnection` and `handleDisconnect` of
-- apps/api/src/modules/realtime/events.gateway.ts.
use vertxing.Prelude.{String, Option, none, some, List, [], ◌∷◌, ◌++◌, if◌then◌else◌}
use vertxing.WaitingRoom.{cancel_knock}
use vertxing.Call.Types.{CallParty, is_truthy}
use vertxing.Call.Presence.{mark_online, mark_offline}
use vertxing.Call.Ending.{drop}
use vertxing.Meetings.World.{App, ret, lift, ◌>>=◌, ◌>>◌}
use vertxing.Gateway.{
  SocketData, Effect, joins, disconnects, Outside, Reaction, user_room, broadcast_waiting_list,
  notify_ended,
}

-- A socket before the handshake.
abbrev pub no_data : SocketData
no_data = record { user = none; knocking_room = none; call_id = none }

-- Who a handshake's token names, if the token is valid and the user exists.
unfoldable pub authenticate : Outside → Option String → Option CallParty
authenticate out none = none
authenticate out (some token) =
    if is_truthy (some token)
    then elim (out.verify token) [
      | none ↦ none
      | some sub ↦ elim (out.display_name sub) [
        | none ↦ none
        | some name ↦ some record { user_id = sub; name = name }
      ]
    ]
    else none

-- The middleware: the socket's data, or a refusal.
unfoldable pub handshake : Outside → Option String → App (Option Reaction)
unfolding authenticate user_room
handshake out token = elim (authenticate out token) [
  | none ↦ ret none
  | some user ↦ do
    lift (mark_online user.user_id)
    ret (some (record no_data { user = some user }, joins (user_room user.user_id) ∷ []))
]

unfoldable pub handle_connection : SocketData → List Effect
handle_connection client = elim client.user [ none ↦ disconnects ∷ [] | some user ↦ [] ]

-- The knock of a guest who leaves is withdrawn.
unfoldable pub withdraw : String → Option String → App (List Effect)
unfolding broadcast_waiting_list
withdraw user_id none = ret []
withdraw user_id (some room_name) =
    if is_truthy (some room_name)
    then (do lift (cancel_knock room_name user_id); broadcast_waiting_list room_name)
    else ret []

-- The call of someone who leaves is torn down.
unfoldable pub tear_down : String → Option String → App (List Effect)
unfolding notify_ended
tear_down user_id none = ret []
tear_down user_id (some call_id) =
    if is_truthy (some call_id)
    then (do ended ← lift (drop call_id user_id); ret (notify_ended ended))
    else ret []

unfoldable pub handle_disconnect : SocketData → App (List Effect)
unfolding withdraw tear_down
handle_disconnect client = elim client.user [
  | none ↦ ret []
  | some user ↦ do
    lift (mark_offline user.user_id)
    withdrawn ← withdraw user.user_id client.knocking_room
    torn_down ← tear_down user.user_id client.call_id
    ret (withdrawn ++ torn_down)
]
