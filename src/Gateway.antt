-- ===== src/Gateway.antt =====
-- The signalling gateway, `EventsGateway` of apps/api/src/modules/realtime/events.gateway.ts: what a
-- socket carries, what is sent to whom, and the helpers. A handler's messages are collected in the
-- order in which they are sent; the messages are those of packages/shared/src/types. The JSON Web
-- Token, the tokens of devices and the UUID of a new call are parameters.
pub mod Connection
pub mod Waiting
pub mod Calls
pub mod Handler
pub mod Admission
pub mod Entering
pub mod Teardown
pub mod Leaving
pub mod Delivery
pub mod Signalling
pub mod Adding
mod Tests
use Prim.Native.String.{◌++◌ as cat}
use vertxing.Prelude.{String, Bool, false, ◌||◌, Option, none, some, List, [], ◌∷◌, ◌==◌, is_some}
use vertxing.WaitingRoom.{WaitingParticipant, list_waiting}
use vertxing.Call.Types.{CallEndReason, CallFailureReason, CallParty, EndResult, Services}
use vertxing.Meetings.World.{App, ret, lift, ◌>>=◌}

-- `SocketData`, of a socket that may not be authenticated.
pub record SocketData : Type 0 where
  pub user : Option CallParty
  pub knocking_room : Option String
  pub call_id : Option String

-- What the server sends to a client: the payloads of `RealtimeEvents` and of `CallEvents`.
pub data Message : Type 0 where
  waiting_list : (room_name : String) → List WaitingParticipant → Message
  let_in turned_away : (room_name : String) → Message
  call_incoming : (call_id : String) (from : CallParty) (mode : String) → Message
  call_ringing : (call_id callee_id : String) → Message
  call_accepted : (call_id mode url token : String) → Message
  call_ended : (call_id : String) → CallEndReason → Message
  call_failed : (call_id : Option String) → CallFailureReason → Message

-- What a handler does besides: to its own socket, to a room of sockets, and outside.
pub data Effect : Type 0 where
  to_self : Message → Effect
  to_room : (room : String) → Message → Effect
  joins : (room : String) → Effect
  disconnects : Effect
  pushes : (user_id call_id : String) (from : CallParty) (mode : String) → Effect
  sends_fcm : (token call_id : String) (from : CallParty) (mode : String) → Effect
  -- `setTimeout` of `onRingTimeout`, after `ring_timeout_ms`.
  arms_timeout : (call_id : String) → Effect

-- What the gateway asks of JwtService, UsersService and the services that calls ask.
pub record Outside : Type 0 where
  pub services : Services
  -- The subject of a valid access token.
  pub verify : String → Option String
  pub display_name : String → Option String
  pub fcm_token : String → Option String

-- A handler's outcome: the socket's data after it, and what it did.
abbrev pub Reaction : Type 0
Reaction = SocketData × List Effect

unfoldable pub user_room : String → String
user_room user_id = cat "user:" user_id

unfoldable pub host_room : String → String
host_room room_name = cat "host:" room_name

unfoldable pub require_user : SocketData → Option CallParty
require_user client = client.user

unfoldable pub identity_in : String → List WaitingParticipant → Bool
identity_in identity [] = false
identity_in identity (w ∷ ws) = w.identity == identity || identity_in identity ws

unfoldable pub is_waiting : String → String → App Bool
is_waiting room_name identity = do
  waiting ← lift (list_waiting room_name)
  ret (identity_in identity waiting)

unfoldable pub broadcast_waiting_list : String → App (List Effect)
unfolding host_room
broadcast_waiting_list room_name = do
  waiting ← lift (list_waiting room_name)
  ret (to_room (host_room room_name) (waiting_list room_name waiting) ∷ [])

unfoldable pub notify_ended : Option EndResult → List Effect
unfolding user_room
notify_ended none = []
notify_ended (some e) = to_room (user_room e.other_id) (call_ended e.call_id e.reason) ∷ []

-- `if (token)`: a device's token is not empty.
unfoldable pub ring_native : Outside → String → String → CallParty → String → List Effect
ring_native out callee_id call_id from mode = elim (out.fcm_token callee_id) [
  | none ↦ []
  | some token ↦ sends_fcm token call_id from mode ∷ []
]
