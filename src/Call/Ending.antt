-- ===== src/Call/Ending.antt =====
-- How a call ends: decline, cancel, hangup, the ring timeout and a dropped socket, of
-- apps/api/src/modules/realtime/call.service.ts. Each method reads the call and goes on with what
-- it read; the second part is a function of its own.
use vertxing.Prelude.{String, not, ◌&&◌, Option, none, some, ◌==◌, if◌then◌else◌}
use vertxing.Redis.Prog.{Prog, ret, ◌>>=◌, ◌>>◌}
use vertxing.Redis.Service.{delete, compare_and_set_hash_field, delete_if_equals}
use vertxing.Call.Types.{
  CallEndReason, declined, cancelled, missed, ended, EndResult, CallMeta, RingingRole, caller_role,
  callee_role, call_key, pair_key, field, get_meta,
}

abbrev other : CallMeta → String → String
other meta user_id =
    if field "callerId" meta == user_id then field "calleeId" meta else field "callerId" meta

unfoldable pub cleanup : String → CallMeta → Prog (Unit {0})
cleanup call_id meta = do
  delete_if_equals (pair_key (field "callerId" meta) (field "calleeId" meta)) call_id
  delete (call_key call_id)

abbrev pub reason_text : CallEndReason → String
reason_text declined = "DECLINED"
reason_text cancelled = "CANCELLED"
reason_text missed = "MISSED"
reason_text ended = "ENDED"

abbrev end_result : String → CallMeta → String → CallEndReason → Option EndResult
end_result call_id meta user_id reason =
    some (record { call_id = call_id; other_id = other meta user_id; reason = reason })

abbrev pub owner_of : RingingRole → CallMeta → String
owner_of caller_role meta = field "callerId" meta
owner_of callee_role meta = field "calleeId" meta

-- `terminateRinging` from the metadata on.
unfoldable pub finish_ringing :
    String → String → RingingRole → CallEndReason → CallMeta → Prog (Option EndResult)
unfolding cleanup
finish_ringing call_id user_id role reason meta =
    if not (owner_of role meta == user_id) then ret none else (do
      won ← compare_and_set_hash_field (call_key call_id) "state" "RINGING" (reason_text reason)
      if not won
          then ret none
          else (do cleanup call_id meta; ret (end_result call_id meta user_id reason)))

unfoldable pub terminate_ringing :
    String → String → RingingRole → CallEndReason → Prog (Option EndResult)
unfolding get_meta finish_ringing
terminate_ringing call_id user_id role reason = do
  found ← get_meta call_id
  elim found [ none ↦ ret none | some meta ↦ finish_ringing call_id user_id role reason meta ]

unfoldable pub decline : String → String → Prog (Option EndResult)
unfolding terminate_ringing
decline call_id user_id = terminate_ringing call_id user_id callee_role declined

unfoldable pub cancel : String → String → Prog (Option EndResult)
unfolding terminate_ringing
cancel call_id user_id = terminate_ringing call_id user_id caller_role cancelled

-- `hangup` from the metadata on.
unfoldable pub finish_active : String → String → CallMeta → Prog (Option EndResult)
unfolding cleanup
finish_active call_id user_id meta =
    if not (field "callerId" meta == user_id) && not (field "calleeId" meta == user_id)
    then ret none
    else (do
      won ← compare_and_set_hash_field (call_key call_id) "state" "ACTIVE" "ENDED"
      if not won
          then ret none
          else (do cleanup call_id meta; ret (end_result call_id meta user_id ended)))

unfoldable pub hangup : String → String → Prog (Option EndResult)
unfolding get_meta finish_active
hangup call_id user_id = do
  found ← get_meta call_id
  elim found [ none ↦ ret none | some meta ↦ finish_active call_id user_id meta ]

-- `timeout` from the metadata on: the caller and the callee, if the call was still ringing.
unfoldable pub finish_timeout : String → CallMeta → Prog (Option (String × String))
unfolding cleanup
finish_timeout call_id meta = do
  won ← compare_and_set_hash_field (call_key call_id) "state" "RINGING" "MISSED"
  if not won
      then ret none
      else (do cleanup call_id meta; ret (some (field "callerId" meta, field "calleeId" meta)))

unfoldable pub timeout : String → Prog (Option (String × String))
unfolding get_meta finish_timeout
timeout call_id = do
  found ← get_meta call_id
  elim found [ none ↦ ret none | some meta ↦ finish_timeout call_id meta ]

-- `drop` from the metadata on.
unfoldable pub finish_drop : String → String → CallMeta → Prog (Option EndResult)
unfolding hangup terminate_ringing
finish_drop call_id user_id meta =
    if field "state" meta == "ACTIVE"
    then hangup call_id user_id
    else if field "state" meta == "RINGING"
    then (if field "callerId" meta == user_id
        then terminate_ringing call_id user_id caller_role cancelled
        else terminate_ringing call_id user_id callee_role declined)
    else ret none

unfoldable pub drop : String → String → Prog (Option EndResult)
unfolding get_meta finish_drop
drop call_id user_id = do
  found ← get_meta call_id
  elim found [ none ↦ ret none | some meta ↦ finish_drop call_id user_id meta ]
