-- ===== src/Meetings/Managing.antt =====
-- Who manages a meeting, and what removing a participant does:
-- apps/api/src/modules/meetings/meetings.service.ts.
use vertxing.Prelude.{
  ℕ, String, ◌≡◌, ◌∙◌, ap, Bool, true, false, ◌||◌, some, ◌==◌, arith, if◌then◌else◌, eq_refl,
}
use vertxing.Http.{HttpError, forbidden, internal, ok, throws}
use vertxing.Redis.Dataset.{Dataset}
use vertxing.Redis.Prog.{run}
use vertxing.Redis.Service.{remove_from_set}
use vertxing.WaitingRoom.{block}
use vertxing.WaitingRoom.Laws.{
  Standing, standing, kicks, decided, decided_of, decide, decide-decided,
}
use vertxing.Meetings.World.{
  World, Meeting, by_room, participant_in, query, App, ret, ask, or_throw, delete, ended, cancelled,
  lift, serve, ◌>>=◌, ◌>>◌,
}
use vertxing.Meetings.Service.{
  Outside, is_over, is_co_host_row, presence_key, find_by_room, join, manageable,
  require_manageable, cancel_meeting, end_meeting, delete_meeting, remove_participant, try_end_room,
  update_meeting, no_change,
}
use vertxing.Meetings.Sequence.{serve-lift, stops, goes_on}
use vertxing.Meetings.Joining.{refused, entry, outcome, join-outcome}

-- The host, or a participant whose role is co-host.
unfoldable pub may_manage : String → World → Meeting → Bool
may_manage u w m = m.host_id == u || is_co_host_row (participant_in m.id u w.participants)

abbrev pub not_yours : HttpError
not_yours = forbidden "Only the host or a co-host can do that"

manageable-may_manage :
    (u : String) (w : World) (m : Meeting)
    → serve (manageable u (some m)) w
      ≡ (if may_manage u w m then (ok m, w) else (throws not_yours, w))
unfolding manageable may_manage query
manageable-may_manage u w m = ground arith

pub require_manageable-may_manage :
    (r u : String) (w : World) (m : Meeting)
    → by_room r w.meetings ≡ some m
    → serve (require_manageable r u) w
      ≡ (if may_manage u w m then (ok m, w) else (throws not_yours, w))
unfolding require_manageable find_by_room query
require_manageable-may_manage r u w m h =
    ap (λ o. serve (manageable u o) w) h ∙ manageable-may_manage u w m

not_managed :
    (r u : String) (w : World) (m : Meeting)
    → by_room r w.meetings ≡ some m
    → may_manage u w m ≡ false
    → serve (require_manageable r u) w ≡ (throws not_yours, w)
not_managed r u w m h n =
    require_manageable-may_manage r u w m h
    ∙ ap (λ b. if b then (ok m, w) else (throws not_yours, w)) n

-- What a host does to a meeting.
pub data Management : Type 0 where
  cancels deletes : Management
  ends : ℕ → Management
  removes : String → Management

unfoldable pub manage_meeting : String → String → Management → App (Unit {0})
unfolding cancel_meeting end_meeting delete_meeting remove_participant
manage_meeting r u cancels = do cancel_meeting r u; ret tt
manage_meeting r u deletes = delete_meeting r u
manage_meeting r u (ends now) = do end_meeting r u now; ret tt
manage_meeting r u (removes t) = remove_participant r u t

-- Cancelling, ending and deleting a meeting and removing a participant are refused to everyone but
-- the host and the co-hosts, and then change nothing.
pub manage_meeting_refused :
    (r u : String) (x : Management) (w : World) (m : Meeting)
    → by_room r w.meetings ≡ some m
    → may_manage u w m ≡ false
    → serve (manage_meeting r u x) w ≡ (throws not_yours, w)
unfolding manage_meeting cancel_meeting end_meeting delete_meeting remove_participant
manage_meeting_refused r u cancels w m h n =
    stops (cancel_meeting r u) (λ _. ret tt) w not_yours
      (stops (require_manageable r u)
        (λ m. do try_end_room r; update_meeting m.id (record no_change { status = some cancelled }))
        w not_yours (not_managed r u w m h n))
manage_meeting_refused r u deletes w m h n =
    stops (require_manageable r u)
      (λ m. do try_end_room r; row ← ask (delete m.id) (or_throw internal); ret tt) w not_yours
      (not_managed r u w m h n)
manage_meeting_refused r u (ends now) w m h n =
    stops (end_meeting r u now) (λ _. ret tt) w not_yours
      (stops (require_manageable r u)
        (λ m. do
          try_end_room r
          update_meeting m.id (record no_change { status = some ended; ended_at = some now }))
        w not_yours (not_managed r u w m h n))
manage_meeting_refused r u (removes t) w m h n =
    stops (require_manageable r u)
      (λ m. do lift (remove_from_set (presence_key r) t); lift (block r t)) w not_yours
      (not_managed r u w m h n)

removed-redis :
    (r u t : String) (w : World) (m : Meeting)
    → by_room r w.meetings ≡ some m
    → may_manage u w m ≡ true
    → serve (remove_participant r u t) w ≡ (
      ok tt,
      record w { redis = (run (block r t) (run (remove_from_set (presence_key r) t) w.redis).1).1 },
    )
unfolding remove_participant
removed-redis r u t w m h n =
    let first = remove_from_set (presence_key r) t in
    let w' : World = record w { redis = (run first w.redis).1 } in
    goes_on (require_manageable r u) (λ m. do lift first; lift (block r t)) w w m
      (require_manageable-may_manage r u w m h
        ∙ ap (λ b. if b then (ok m, w) else (throws not_yours, w)) n)
    ∙ goes_on (lift first) (λ _. lift (block r t)) w w' tt (serve-lift first w)
    ∙ serve-lift (block r t) w'

kicked-entry :
    (m : Meeting) (t : String) (s : Standing)
    → is_over m.status ≡ false
    → (m.host_id == t) ≡ false
    → entry m t (decided_of (t == t) kicks s)
      ≡ refused (forbidden "You were removed from this meeting")
unfolding entry decided decided_of
kicked-entry m t s o g = ground (arith, eq_refl t)

kicked_standing :
    (r t : String) (d : Dataset)
    → standing r t (run (block r t) d).1 ≡ decided_of (t == t) kicks (standing r t d)
unfolding decide
kicked_standing r t d = decide-decided r t t kicks d

-- A guest whom the host or a co-host has removed is refused when joining again, whatever the meeting
-- lets in otherwise, as long as it is not over.
pub remove_participant-join :
    (out : Outside) (r u t : String) (now : ℕ) (w : World) (m : Meeting)
    → by_room r w.meetings ≡ some m
    → may_manage u w m ≡ true
    → is_over m.status ≡ false
    → (m.host_id == t) ≡ false
    → (serve (join out r t now) (serve (remove_participant r u t) w).1).0
      ≡ throws (forbidden "You were removed from this meeting")
unfolding outcome
remove_participant-join out r u t now w m h n o g =
    let d = (run (remove_from_set (presence_key r) t) w.redis).1 in
    let w' : World = record w { redis = (run (block r t) d).1 } in
    ap (λ x. (serve (join out r t now) x.1).0) (removed-redis r u t w m h n)
    ∙ ap (λ x. x.0) (join-outcome out r t now w' m h)
    ∙ ap (λ s. (outcome out r t now m (entry m t s) w').0) (kicked_standing r t d)
    ∙ ap (λ e. (outcome out r t now m e w').0) (kicked-entry m t (standing r t d) o g)
