-- ===== src/Web/Screen.antt =====
-- The call on a user's screen: `CallProvider` of apps/web/lib/call-context.tsx as a state machine,
-- with the messages of packages/shared/src/types/call.types.ts. A handler runs to its end, and React
-- has rendered, before the next event: `callRef` and the state are one. The components that show the
-- state are left out; of the ringtone there is what the provider asks of it, not what sounds.
pub mod Invariant
pub mod Behaviour
mod Tests
use vertxing.Prelude.{
  String, Bool, true, false, not, ◌&&◌, ◌||◌, Option, none, some, List, [], ◌∷◌, ◌==◌,
  if◌then◌else◌, is_some,
}
use vertxing.Call.Types.{
  CallEndReason, declined, cancelled, missed, ended, CallFailureReason, offline, busy, unavailable,
  unauthorized, self, gone, forbidden, error, is_truthy,
}

pub data CallStatus : Type 0 where
  idle outgoing incoming active : CallStatus

pub record Peer : Type 0 where
  pub id : String
  pub name : String

pub record Livekit : Type 0 where
  pub url : String
  pub token : String

pub record CallState : Type 0 where
  pub status : CallStatus
  pub call_id : Option String
  pub peer : Option Peer
  pub mode : String
  pub livekit : Option Livekit

-- `IDLE`
abbrev pub idle_call : CallState
idle_call = record { status = idle; call_id = none; peer = none; mode = "AUDIO"; livekit = none }

-- The provider's state: the call, whether the last call of the ringtone was `start` (what then sounds
-- and when is the player's, Web/Ringtone), the notice, and whether there is a socket.
pub record Screen : Type 0 where
  pub call : CallState
  pub ring_started : Bool
  pub notice : Option String
  pub has_socket : Bool

-- What the client sends.
pub data Sent : Type 0 where
  sends_invite : (callee_id mode : String) → Sent
  sends_accept sends_decline sends_cancel sends_hangup : (call_id : String) → Sent
  sends_add : (call_id callee_id : String) → Sent

-- What happens to it: messages of the server, presses of the user, links from a notification (with
-- the name and the mode that the link carries, if it does), timers, and the socket's coming and going.
pub data Input : Type 0 where
  got_incoming : (call_id : String) (from : Peer) (mode : String) → Input
  got_ringing : (call_id : String) → Input
  got_accepted : (call_id mode : String) → Livekit → Input
  got_ended : (call_id : String) → CallEndReason → Input
  got_failed : CallFailureReason → Input
  calls_user : Peer → (mode : String) → Input
  presses_accept presses_decline presses_cancel presses_hangup : Input
  adds_to_call : (callee_id : String) → Input
  opens_accept_link : (call_id : String) (from mode : Option String) → Input
  opens_decline_link : (call_id : String) → Input
  ring_time_over notice_time_over connects unmounts : Input

abbrev pub is_idle : CallStatus → Bool
is_idle idle = true
is_idle _ = false

abbrev pub is_outgoing : CallStatus → Bool
is_outgoing outgoing = true
is_outgoing _ = false

abbrev pub is_active : CallStatus → Bool
is_active active = true
is_active _ = false

abbrev pub is_ringing : CallStatus → Bool
is_ringing outgoing = true
is_ringing incoming = true
is_ringing _ = false

abbrev pub ended_label : CallEndReason → String
ended_label declined = "Call declined"
ended_label cancelled = "Call cancelled"
ended_label missed = "No answer"
ended_label ended = "Call ended"

abbrev pub failed_label : CallFailureReason → String
failed_label offline = "They’re offline right now"
failed_label busy = "They’re on another call"
failed_label unavailable = "They have Do-Not-Disturb on"
failed_label unauthorized = "Calling isn’t enabled for your account — contact your administrator"
failed_label self = "You can’t call yourself"
failed_label gone = "That call is no longer available"
failed_label forbidden = "Not allowed"
failed_label error = "Could not place the call"

unfoldable pub reset : Screen → Screen
reset s = record s { call = idle_call; ring_started = false }

unfoldable pub flash : String → Screen → Screen
flash message s = record s { notice = some message }

-- `emit`: the message about the call on display, if there is a socket and an id.
unfoldable pub emit_call : (String → Sent) → Screen → List Sent
emit_call event s = elim s.call.call_id [
  | none ↦ []
  | some call_id ↦ if s.has_socket && is_truthy (some call_id) then event call_id ∷ [] else []
]

unfoldable pub on_incoming : String → Peer → String → Screen → Screen × List Sent
on_incoming call_id from mode s =
    if not (is_idle s.call.status) then (s, sends_decline call_id ∷ []) else (
      record s {
        call = record {
          status = incoming;
          call_id = some call_id;
          peer = some from;
          mode = mode;
          livekit = none;
        };
        ring_started = true;
      },
      [],
    )

unfoldable pub on_ringing : String → Screen → Screen
on_ringing call_id s =
    if is_outgoing s.call.status
    then record s { call = record s.call { call_id = some call_id } }
    else s

unfoldable pub on_accepted : String → String → Livekit → Screen → Screen
on_accepted call_id mode livekit s = record s {
  call = record s.call {
    status = active;
    call_id = some call_id;
    mode = mode;
    livekit = some livekit;
  };
  ring_started = false;
}

-- `callRef.current.callId && callRef.current.callId !== p.callId`
abbrev pub shows_other : Option String → String → Bool
shows_other none call_id = false
shows_other (some c) call_id = is_truthy (some c) && not (c == call_id)

unfoldable pub on_ended : String → CallEndReason → Screen → Screen
unfolding reset flash
on_ended call_id reason s =
    if shows_other s.call.call_id call_id then s else reset (flash (ended_label reason) s)

unfoldable pub on_failed : CallFailureReason → Screen → Screen
unfolding reset flash
on_failed reason s = reset (flash (failed_label reason) s)

unfoldable pub call_user : Peer → String → Screen → Screen × List Sent
call_user callee mode s = if not s.has_socket || not (is_idle s.call.status) then (s, []) else (
  record s {
    call = record {
      status = outgoing;
      call_id = none;
      peer = some callee;
      mode = mode;
      livekit = none;
    };
    ring_started = true;
  },
  sends_invite callee.id mode ∷ [],
)

-- `addToCall`
abbrev add_sent : Bool → Option String → String → List Sent
add_sent b none callee_id = []
add_sent b (some call_id) callee_id =
    if b && is_truthy (some call_id) then sends_add call_id callee_id ∷ [] else []

unfoldable pub add_to_call : String → Screen → List Sent
add_to_call callee_id s =
    add_sent (s.has_socket && is_active s.call.status) s.call.call_id callee_id

-- `o || t`
abbrev pub text_or : Option String → String → String
text_or none t = t
text_or (some x) t = if x == "" then t else x

-- `handleDeepLink` for a link that accepts: it runs once the socket is there.
unfoldable pub accept_link : String → Option String → Option String → Screen → Screen × List Sent
accept_link call_id from mode s = (
  record s {
    call = record {
      status = incoming;
      call_id = some call_id;
      peer = some record { id = ""; name = text_or from "Call" };
      mode = text_or mode "AUDIO";
      livekit = none;
    };
    ring_started = false;
  },
  sends_accept call_id ∷ [],
)

unfoldable pub step : Screen → Input → Screen × List Sent
unfolding on_incoming on_ringing on_accepted on_ended on_failed call_user emit_call reset
    add_to_call accept_link
step s (got_incoming call_id from mode) = on_incoming call_id from mode s
step s (got_ringing call_id) = (on_ringing call_id s, [])
step s (got_accepted call_id mode livekit) = (on_accepted call_id mode livekit s, [])
step s (got_ended call_id reason) = (on_ended call_id reason s, [])
step s (got_failed reason) = (on_failed reason s, [])
step s (calls_user callee mode) = call_user callee mode s
step s presses_accept = (record s { ring_started = false }, emit_call sends_accept s)
step s presses_decline = (reset s, emit_call sends_decline s)
step s presses_cancel = (reset s, emit_call sends_cancel s)
step s presses_hangup = (reset s, emit_call sends_hangup s)
step s (adds_to_call callee_id) = (s, add_to_call callee_id s)
step s (opens_accept_link call_id from mode) =
    if s.has_socket && is_truthy (some call_id) then accept_link call_id from mode s else (s, [])
step s (opens_decline_link call_id) =
    if s.has_socket && is_truthy (some call_id) then (s, sends_decline call_id ∷ []) else (s, [])
step s ring_time_over =
    (record s { ring_started = s.ring_started && not (is_ringing s.call.status) }, [])
step s notice_time_over = (record s { notice = none }, [])
step s connects = (record s { has_socket = true }, [])
step s unmounts = (record s { ring_started = false; has_socket = false }, [])

unfoldable pub run_screen : Screen → List Input → Screen
unfolding step
run_screen s [] = s
run_screen s (i ∷ is) = run_screen (step s i).0 is

-- The provider when it mounts.
abbrev pub first_screen : Screen
first_screen = record { call = idle_call; ring_started = false; notice = none; has_socket = false }
