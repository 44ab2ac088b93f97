-- ===== src/Gateway/Delivery.antt =====
-- The wire between the gateway and the call on a user's screen: which message of the server is which
-- event of apps/web/lib/call-context.tsx, and which message of the client is which event of
-- apps/api/src/modules/realtime/events.gateway.ts. A message to a room reaches the screens of that
-- room.
use vertxing.Prelude.{String, Option, none, some, List, [], ◌∷◌, ◌==◌, if◌then◌else◌}
use vertxing.Gateway.{
  Message, call_incoming, call_ringing, call_accepted, call_ended, call_failed, Effect, to_self,
  to_room,
}
use vertxing.Gateway.Handler.{
  Event, call_invite, call_accept, call_decline, call_cancel, call_hangup, call_add,
}
use vertxing.Web.Screen.{
  Screen, Sent, sends_invite, sends_accept, sends_decline, sends_cancel, sends_hangup, sends_add,
  Input, got_incoming, got_ringing, got_accepted, got_ended, got_failed, step,
}

unfoldable pub received : Message → Option Input
received (call_incoming call_id from mode) =
    some (got_incoming call_id record { id = from.user_id; name = from.name } mode)
received (call_ringing call_id callee_id) = some (got_ringing call_id)
received (call_accepted call_id mode url token) =
    some (got_accepted call_id mode record { url = url; token = token })
received (call_ended call_id reason) = some (got_ended call_id reason)
received (call_failed call_id reason) = some (got_failed reason)
received _ = none

unfoldable pub event_of : Sent → Event
event_of (sends_invite callee_id mode) = call_invite callee_id mode
event_of (sends_accept call_id) = call_accept call_id
event_of (sends_decline call_id) = call_decline call_id
event_of (sends_cancel call_id) = call_cancel call_id
event_of (sends_hangup call_id) = call_hangup call_id
event_of (sends_add call_id callee_id) = call_add call_id callee_id

abbrev pub shows : Message → Screen → Screen
shows m s = elim (received m) [ none ↦ s | some i ↦ (step s i).0 ]

-- The screen of a socket in a room, after what a handler of another socket sent.
unfoldable pub hears : String → List Effect → Screen → Screen
unfolding received
hears room [] s = s
hears room (to_room r m ∷ es) s = hears room es (if r == room then shows m s else s)
hears room (_ ∷ es) s = hears room es s

-- The screen of the handler's own socket, with what its user's room gets as well.
unfoldable pub hears_own : String → List Effect → Screen → Screen
unfolding received
hears_own room [] s = s
hears_own room (to_self m ∷ es) s = hears_own room es (shows m s)
hears_own room (to_room r m ∷ es) s = hears_own room es (if r == room then shows m s else s)
hears_own room (_ ∷ es) s = hears_own room es s
