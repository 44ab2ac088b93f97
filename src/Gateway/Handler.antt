-- ===== src/Gateway/Handler.antt =====
-- The events of a socket and the handler of each: apps/api/src/modules/realtime/events.gateway.ts.
-- Every handler begins with `requireUser`.
use vertxing.Prelude.{String, none, some, []}
use vertxing.Call.Types.{CallParty}
use vertxing.Meetings.World.{App, ret, lift}
use vertxing.Gateway.{SocketData, Outside, Reaction, require_user}
use vertxing.Gateway.Waiting.{on_host_watch, on_knock, on_cancel_knock, on_admit, on_deny}
use vertxing.Gateway.Calls.{
  on_call_invite, on_call_accept, on_call_decline, on_call_cancel, on_call_hangup, on_call_add,
}

pub data Event : Type 0 where
  host_watch asks_to_enter cancel_knock : (room_name : String) → Event
  admit deny : (room_name identity : String) → Event
  call_invite : (callee_id mode : String) → Event
  call_accept call_decline call_cancel call_hangup : (call_id : String) → Event
  call_add : (call_id callee_id : String) → Event

unfoldable pub handle_of : Outside → SocketData → CallParty → String → Event → App Reaction
handle_of out client user uuid (host_watch r) = on_host_watch client user r
handle_of out client user uuid (asks_to_enter r) = on_knock client user r
handle_of out client user uuid (cancel_knock r) = on_cancel_knock client user r
handle_of out client user uuid (admit r i) = on_admit client user r i
handle_of out client user uuid (deny r i) = on_deny client user r i
handle_of out client user uuid (call_invite c m) = lift (on_call_invite out client user c m uuid)
handle_of out client user uuid (call_accept c) = lift (on_call_accept out client user c)
handle_of out client user uuid (call_decline c) = lift (on_call_decline client user c)
handle_of out client user uuid (call_cancel c) = lift (on_call_cancel client user c)
handle_of out client user uuid (call_hangup c) = lift (on_call_hangup client user c)
handle_of out client user uuid (call_add c j) = lift (on_call_add out client user c j uuid)

-- The event of a socket; `uuid` is what `randomUUID` returns next.
unfoldable pub handle : Outside → SocketData → String → Event → App Reaction
unfolding handle_of require_user
handle out client uuid e = elim (require_user client) [
  | none ↦ ret (client, [])
  | some user ↦ handle_of out client user uuid e
]
