-- ===== src/Gateway/Calls.antt =====
-- The handlers of direct calls, of apps/api/src/modules/realtime/events.gateway.ts, each of a socket
-- whose user is authenticated, and the timer that ends a call nobody answers.
use vertxing.Prelude.{String, Option, none, some, List, [], ◌∷◌, ◌++◌}
use vertxing.Redis.Prog.{Prog, ret, ◌>>=◌}
use vertxing.Call.Types.{
  missed, CallParty, InviteOutcome, invited, not_invited, AcceptOutcome, accepted, not_accepted,
}
use vertxing.Call.Placing.{invite, add_participant, accept}
use vertxing.Call.Ending.{decline, cancel, hangup, timeout}
use vertxing.Gateway.{
  SocketData, Effect, to_self, to_room, pushes, arms_timeout, call_incoming, call_ringing,
  call_accepted, call_ended, call_failed, Outside, Reaction, user_room, notify_ended, ring_native,
}

-- What follows an invitation that rings.
unfoldable pub invited_effects : Outside → CallParty → String → String → String → List Effect
unfolding user_room ring_native
invited_effects out user callee_id mode call_id =
    (to_room (user_room callee_id) (call_incoming call_id user mode)
      ∷ to_self (call_ringing call_id callee_id)
      ∷ pushes callee_id call_id user mode
      ∷ [])
    ++ ring_native out callee_id call_id user mode
    ++ (arms_timeout call_id ∷ [])

unfoldable pub invite_reaction :
    Outside → SocketData → CallParty → String → String → InviteOutcome → Reaction
unfolding invited_effects
invite_reaction out client user callee_id mode (not_invited reason) =
    (client, to_self (call_failed none reason) ∷ [])
invite_reaction out client user callee_id mode (invited call_id room_name) =
    (record client { call_id = some call_id }, invited_effects out user callee_id mode call_id)

unfoldable pub on_call_invite :
    Outside → SocketData → CallParty → String → String → String → Prog Reaction
unfolding invite_reaction
on_call_invite out client user callee_id mode new_call_id = do
  result ← invite out.services user callee_id mode none new_call_id
  ret (invite_reaction out client user callee_id mode result)

unfoldable pub accept_reaction : SocketData → String → AcceptOutcome → Reaction
unfolding user_room
accept_reaction client call_id (not_accepted reason) =
    (client, to_self (call_failed (some call_id) reason) ∷ [])
accept_reaction client call_id (accepted id mode url caller_id caller_token callee_token) = (
  record client { call_id = some call_id },
  to_self (call_accepted id mode url callee_token)
      ∷ to_room (user_room caller_id) (call_accepted id mode url caller_token)
      ∷ [],
)

unfoldable pub on_call_accept : Outside → SocketData → CallParty → String → Prog Reaction
unfolding accept_reaction
on_call_accept out client user call_id = do
  result ← accept out.services call_id user
  ret (accept_reaction client call_id result)

unfoldable pub on_call_decline : SocketData → CallParty → String → Prog Reaction
unfolding notify_ended
on_call_decline client user call_id = do
  ended ← decline call_id user.user_id
  ret (client, notify_ended ended)

unfoldable pub on_call_cancel : SocketData → CallParty → String → Prog Reaction
unfolding notify_ended
on_call_cancel client user call_id = do
  ended ← cancel call_id user.user_id
  ret (record client { call_id = none }, notify_ended ended)

unfoldable pub on_call_hangup : SocketData → CallParty → String → Prog Reaction
unfolding notify_ended
on_call_hangup client user call_id = do
  ended ← hangup call_id user.user_id
  ret (record client { call_id = none }, notify_ended ended)

-- The mode that the added person is shown is always AUDIO.
unfoldable pub add_effects : Outside → CallParty → String → InviteOutcome → List Effect
unfolding user_room ring_native
add_effects out user callee_id (not_invited reason) = to_self (call_failed none reason) ∷ []
add_effects out user callee_id (invited call_id room_name) =
    (to_room (user_room callee_id) (call_incoming call_id user "AUDIO")
      ∷ pushes callee_id call_id user "AUDIO"
      ∷ [])
    ++ ring_native out callee_id call_id user "AUDIO"
    ++ (arms_timeout call_id ∷ [])

unfoldable pub on_call_add :
    Outside → SocketData → CallParty → String → String → String → Prog Reaction
unfolding add_effects
on_call_add out client user call_id callee_id new_call_id = do
  result ← add_participant out.services user call_id callee_id new_call_id
  ret (client, add_effects out user callee_id result)

unfoldable pub missed_effects : String → Option (String × String) → List Effect
unfolding user_room
missed_effects call_id none = []
missed_effects call_id (some (caller_id, callee_id)) =
    to_room (user_room caller_id) (call_ended call_id missed)
    ∷ to_room (user_room callee_id) (call_ended call_id missed)
    ∷ []

unfoldable pub on_ring_timeout : String → Prog (List Effect)
unfolding missed_effects
on_ring_timeout call_id = do result ← timeout call_id; ret (missed_effects call_id result)
