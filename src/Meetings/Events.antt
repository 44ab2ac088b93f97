-- ===== src/Meetings/Events.antt =====
-- What LiveKit's room webhooks do to a meeting: `handleRoomEvent` of
-- apps/api/src/modules/meetings/meetings.service.ts.
use vertxing.Prelude.{ℕ, String, Option, none, some, ◌==◌, ◌||◌, if◌then◌else◌}
use vertxing.Redis.Service.{delete}
use vertxing.WaitingRoom.{clear_room}
use vertxing.Meetings.World.{live, ended, Meeting, App, ret, lift, ◌>>=◌, ◌>>◌}
use vertxing.Meetings.Service.{no_change, is_scheduled, presence_key, find_by_room, update_meeting}

-- The parts of `WebhookEvent` that are read; `none` is a part that is missing.
pub record WebhookEvent : Type 0 where
  pub event : String
  pub room_name : Option String
  pub num_participants : Option ℕ

abbrev count_of : Option ℕ → ℕ
count_of none = 0
count_of (some n) = n

-- `meeting.startedAt ?? new Date()`
abbrev started : Option ℕ → ℕ → ℕ
started none now = now
started (some t) now = t

-- The event of a known meeting.
unfoldable pub on_event : String → String → ℕ → ℕ → Meeting → App (Unit {0})
unfolding update_meeting presence_key
on_event room_name event count now meeting =
    if event == "room_started"
    then (do
      update_meeting meeting.id (record no_change {
        status = some live;
        started_at = some (started meeting.started_at now);
        participant_count = some count;
      })
      ret tt)
    else if event == "participant_joined" || event == "participant_left"
    then (do
      update_meeting meeting.id (
          if is_scheduled meeting.status
          then record no_change {
            participant_count = some count;
            status = some live;
            started_at = some now;
          }
          else record no_change { participant_count = some count })
      ret tt)
    else if event == "room_finished"
    then (do
      update_meeting meeting.id (record no_change {
        status = some ended;
        ended_at = some now;
        participant_count = some 0;
      })
      lift (clear_room room_name)
      lift (delete (presence_key room_name)))
    else ret tt

unfoldable pub on_found : String → String → ℕ → ℕ → Option Meeting → App (Unit {0})
unfolding on_event
on_found room_name event count now none = ret tt
on_found room_name event count now (some meeting) = on_event room_name event count now meeting

unfoldable pub handle_room_event : WebhookEvent → ℕ → App (Unit {0})
unfolding find_by_room on_found
handle_room_event e now = elim e.room_name [
  | none ↦ ret tt
  | some room_name ↦ if room_name == "" then ret tt else (do
    found ← find_by_room room_name
    on_found room_name e.event (count_of e.num_participants) now found)
]
