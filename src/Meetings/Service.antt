-- ===== src/Meetings/Service.antt =====
-- The lifecycle of a meeting: apps/api/src/modules/meetings/meetings.service.ts, with the statuses
-- and roles of packages/shared/src/types/meeting.types.ts. LiveKit's calls that the service ignores
-- the failure of do nothing here; the tokens and the user's profile are a parameter. The current time
-- is an argument. Creating, listing, renaming and rescheduling are not modelled.
use Prim.Native.String.{◌++◌ as cat}
use vertxing.Prelude.{ℕ, String, Bool, true, false, ◌&&◌, Option, none, some, ◌==◌, if◌then◌else◌}
use vertxing.Http.{forbidden, not_found, internal}
use vertxing.Redis.Service.{add_to_set, remove_from_set, delete as delete_key}
use vertxing.WaitingRoom.{is_denied, is_admitted, block, clear_room}
use vertxing.Meetings.World.{
  MeetingStatus, scheduled, live, ended, cancelled, ParticipantRole, host, co_host, guest, Meeting,
  Participant, MeetingUpdate, find_by_room_name, find_participant, update as update_query,
  delete as delete_query, upsert_participant, App, ret, throw, ask, tell, lift, or_throw, ◌>>=◌,
  ◌>>◌,
}

-- The user's display name, if there is such a user, and LiveKit's token of a room, an identity, a
-- name and a role.
pub record Outside : Type 0 where
  pub display_name : String → Option String
  pub server_url : String
  pub create_access_token : String → String → String → ParticipantRole → String

pub data JoinResult : Type 0 where
  admitted : Meeting → ParticipantRole → (url access_token identity : String) → JoinResult
  waiting : Meeting → JoinResult

unfoldable pub presence_key : String → String
presence_key room_name = cat "presence:room:" room_name

abbrev pub no_change : MeetingUpdate
no_change = record { status = none; participant_count = none; started_at = none; ended_at = none }

unfoldable pub find_by_room : String → App (Option Meeting)
find_by_room room_name = ask (find_by_room_name room_name) ret

unfoldable pub update_meeting : String → MeetingUpdate → App Meeting
update_meeting id fields = ask (update_query id fields) (or_throw internal)

unfoldable pub mark_live : String → ℕ → App Meeting
unfolding update_meeting
mark_live id started_at =
    update_meeting id (record no_change { status = some live; started_at = some started_at })

-- `status === 'ENDED' || status === 'CANCELLED'`
abbrev pub is_over : MeetingStatus → Bool
is_over scheduled = false
is_over live = false
is_over ended = true
is_over cancelled = true

abbrev pub is_scheduled : MeetingStatus → Bool
is_scheduled scheduled = true
is_scheduled _ = false

abbrev pub is_guest : ParticipantRole → Bool
is_guest guest = true
is_guest _ = false

abbrev pub is_co_host : ParticipantRole → Bool
is_co_host co_host = true
is_co_host _ = false

-- `join` of someone who may enter.
unfoldable pub enter : Outside → String → String → ParticipantRole → ℕ → Meeting → App JoinResult
unfolding mark_live presence_key
enter out room_name user_id role now meeting = do
  meeting ← if is_scheduled meeting.status then mark_live meeting.id now else ret meeting
  ask (upsert_participant meeting.id user_id role) ret
  lift (add_to_set (presence_key room_name) user_id)
  name ← or_throw (not_found "User not found") (out.display_name user_id)
  ret (
      admitted meeting role out.server_url (out.create_access_token room_name user_id name role)
        user_id)

-- The waiting-room gate, for a guest who was not kicked and for the host.
unfoldable pub gate : Outside → String → String → ParticipantRole → ℕ → Meeting → App JoinResult
unfolding enter
gate out room_name user_id role now meeting =
    if meeting.waiting_room_enabled && is_guest role
    then (do
      let_in ← lift (is_admitted room_name user_id)
      if let_in then enter out room_name user_id role now meeting else ret (waiting meeting))
    else enter out room_name user_id role now meeting

-- `join` of a meeting that is not over, in a role.
unfoldable pub join_as : Outside → String → String → ParticipantRole → ℕ → Meeting → App JoinResult
unfolding gate
join_as out room_name user_id guest now meeting = do
  denied ← lift (is_denied room_name user_id)
  if denied
      then throw (forbidden "You were removed from this meeting")
      else gate out room_name user_id guest now meeting
join_as out room_name user_id role now meeting = gate out room_name user_id role now meeting

-- `join` once the meeting is looked up.
unfoldable pub join_found : Outside → String → String → ℕ → Option Meeting → App JoinResult
unfolding join_as
join_found out room_name user_id now none = throw (not_found "Meeting not found")
join_found out room_name user_id now (some meeting) =
    if is_over meeting.status
    then throw (forbidden "This meeting is no longer active")
    else if meeting.host_id == user_id
    then join_as out room_name user_id host now meeting
    else join_as out room_name user_id guest now meeting

unfoldable pub join : Outside → String → String → ℕ → App JoinResult
unfolding find_by_room join_found
join out room_name user_id now = do
  found ← find_by_room room_name
  join_found out room_name user_id now found

abbrev pub is_co_host_row : Option Participant → Bool
is_co_host_row none = false
is_co_host_row (some p) = is_co_host p.role

-- `requireManageable` once the meeting is looked up.
unfoldable pub manageable : String → Option Meeting → App Meeting
manageable user_id none = throw (not_found "Meeting not found")
manageable user_id (some meeting) = if meeting.host_id == user_id then ret meeting else (do
  participant ← ask (find_participant meeting.id user_id) ret
  if is_co_host_row participant
      then ret meeting
      else throw (forbidden "Only the host or a co-host can do that"))

unfoldable pub require_manageable : String → String → App Meeting
unfolding find_by_room manageable
require_manageable room_name user_id = do found ← find_by_room room_name; manageable user_id found

-- The room of the SFU is dropped outside.
unfoldable pub try_end_room : String → App (Unit {0})
unfolding presence_key
try_end_room room_name = do lift (clear_room room_name); lift (delete_key (presence_key room_name))

unfoldable pub cancel_meeting : String → String → App Meeting
unfolding require_manageable try_end_room update_meeting
cancel_meeting room_name user_id = do
  meeting ← require_manageable room_name user_id
  try_end_room room_name
  update_meeting meeting.id (record no_change { status = some cancelled })

unfoldable pub end_meeting : String → String → ℕ → App Meeting
unfolding require_manageable try_end_room update_meeting
end_meeting room_name user_id now = do
  meeting ← require_manageable room_name user_id
  try_end_room room_name
  update_meeting meeting.id (record no_change { status = some ended; ended_at = some now })

unfoldable pub delete_meeting : String → String → App (Unit {0})
unfolding require_manageable try_end_room
delete_meeting room_name user_id = do
  meeting ← require_manageable room_name user_id
  try_end_room room_name
  row ← ask (delete_query meeting.id) (or_throw internal)
  ret tt

-- The participant is put out of the SFU's room outside.
unfoldable pub remove_participant : String → String → String → App (Unit {0})
unfolding require_manageable presence_key
remove_participant room_name user_id target_identity = do
  require_manageable room_name user_id
  lift (remove_from_set (presence_key room_name) target_identity)
  lift (block room_name target_identity)

-- `try { await p; return true } catch { return false }`
abbrev pub succeeds {ℓ} : {A : Type ℓ} → App A → App Bool
succeeds (ret a) = ret true
succeeds (throw e) = ret false
succeeds (ask q k) = ask q (λ r. succeeds (k r))
succeeds (tell m k) = tell m (λ r. succeeds (k r))

unfoldable pub can_manage : String → String → App Bool
unfolding require_manageable
can_manage room_name user_id = succeeds (require_manageable room_name user_id)

abbrev pub has_waiting_room : Option Meeting → Bool
has_waiting_room none = false
has_waiting_room (some meeting) = meeting.waiting_room_enabled

unfoldable pub is_waiting_room_meeting : String → App Bool
unfolding find_by_room
is_waiting_room_meeting room_name = do
  meeting ← find_by_room room_name
  ret (has_waiting_room meeting)
