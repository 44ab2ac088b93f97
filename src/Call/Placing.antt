-- ===== src/Call/Placing.antt =====
-- How a call starts: invite, addParticipant and accept, of
-- apps/api/src/modules/realtime/call.service.ts.
use Prim.Native.String.{◌++◌ as cat}
use mathlib.Core.Option.{get_or}
use vertxing.Prelude.{String, not, ◌&&◌, Option, none, some, [], ◌∷◌, ◌==◌, if◌then◌else◌, lookup}
use vertxing.Redis.Prog.{Prog, ret, ◌>>=◌, ◌>>◌}
use vertxing.Redis.Service.{expire, set_if_absent, hash_set_object, compare_and_set_hash_field}
use vertxing.Call.Types.{
  busy, offline, unavailable, unauthorized, self, gone, forbidden, CallParty, InviteOutcome,
  invited, not_invited, AcceptOutcome, accepted, not_accepted, CallMeta, Services, ring_ttl,
  active_ttl, call_key, pair_key, field, get_meta,
}
use vertxing.Call.Presence.{is_online}

-- The first write of a call, and what `invite` does once its guards have passed.
unfoldable pub ring : CallParty → String → String → Option String → String → Prog InviteOutcome
ring caller callee_id mode existing_room call_id = do
  acquired ← set_if_absent (pair_key caller.user_id callee_id) call_id ring_ttl
  if not acquired then ret (not_invited busy) else (do
    let room_name = get_or existing_room (cat "call-" call_id)
    hash_set_object (call_key call_id) (
        ("state", "RINGING")
        ∷ ("callerId", caller.user_id)
        ∷ ("callerName", caller.name)
        ∷ ("calleeId", callee_id)
        ∷ ("mode", mode)
        ∷ ("roomName", room_name)
        ∷ [])
    expire (call_key call_id) ring_ttl
    ret (invited call_id room_name))

module _ (services : Services) where
  open services use {
    can_start_calls, accepts_calls, has_subscriptions, server_url, create_access_token,
  }

  -- `call_id` is the UUID that the call would be given.
  unfoldable pub invite : CallParty → String → String → Option String → String → Prog InviteOutcome
  unfolding is_online ring
  invite caller callee_id mode existing_room call_id =
      if callee_id == caller.user_id
      then ret (not_invited self)
      else if not (can_start_calls caller.user_id)
      then ret (not_invited unauthorized)
      else (do
        online ← is_online callee_id
        if not online && not (has_subscriptions callee_id)
            then ret (not_invited offline)
            else if not (accepts_calls callee_id)
            then ret (not_invited unavailable)
            else ring caller callee_id mode existing_room call_id)

  -- `addParticipant` from the metadata on.
  unfoldable pub finish_add : CallParty → String → String → CallMeta → Prog InviteOutcome
  unfolding invite
  finish_add adder callee_id new_call_id meta =
      if not (field "state" meta == "ACTIVE")
      then ret (not_invited gone)
      else if not (adder.user_id == field "callerId" meta)
          && not (adder.user_id == field "calleeId" meta)
      then ret (not_invited forbidden)
      else invite adder callee_id (field "mode" meta) (lookup "roomName" meta) new_call_id

  unfoldable pub add_participant : CallParty → String → String → String → Prog InviteOutcome
  unfolding get_meta finish_add
  add_participant adder call_id callee_id new_call_id = do
    found ← get_meta call_id
    elim found [
      | none ↦ ret (not_invited gone)
      | some meta ↦ finish_add adder callee_id new_call_id meta
    ]

  abbrev pub accepted_with : String → CallParty → CallMeta → AcceptOutcome
  accepted_with call_id callee meta =
      let room = field "roomName" meta in
      accepted call_id (field "mode" meta) server_url (field "callerId" meta)
        (create_access_token room (field "callerId" meta) (field "callerName" meta))
        (create_access_token room callee.user_id callee.name)

  -- `accept` from the metadata on.
  unfoldable pub finish_accept : String → CallParty → CallMeta → Prog AcceptOutcome
  finish_accept call_id callee meta =
      if not (field "calleeId" meta == callee.user_id) then ret (not_accepted forbidden) else (do
        won ← compare_and_set_hash_field (call_key call_id) "state" "RINGING" "ACTIVE"
        if not won then ret (not_accepted gone) else (do
          expire (call_key call_id) active_ttl
          expire (pair_key (field "callerId" meta) (field "calleeId" meta)) active_ttl
          ret (accepted_with call_id callee meta)))

  unfoldable pub accept : String → CallParty → Prog AcceptOutcome
  unfolding get_meta finish_accept
  accept call_id callee = do
    found ← get_meta call_id
    elim found [ none ↦ ret (not_accepted gone) | some meta ↦ finish_accept call_id callee meta ]
