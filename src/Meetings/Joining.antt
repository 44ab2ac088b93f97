-- ===== src/Meetings/Joining.antt =====
-- Who enters a meeting and who manages it: meetings.service.ts, under apps/api/src/modules/meetings.
use vertxing.Prelude.{ℕ, String, ◌≡◌, ◌∙◌, ap, not, ◌&&◌, some, ◌==◌, arith, if◌then◌else◌}
use vertxing.Http.{HttpError, forbidden, Result, ok, throws}
use vertxing.Redis.Dataset.{answer}
use vertxing.Redis.Service.{set_has}
use vertxing.WaitingRoom.{is_denied, is_admitted}
use vertxing.WaitingRoom.Laws.{Standing, standing}
use vertxing.Meetings.World.{World, Meeting, ParticipantRole, host, guest, by_room, query, serve}
use vertxing.Meetings.Service.{
  Outside, JoinResult, waiting, is_over, find_by_room, enter, gate, join_as, join_found, join,
}

-- What comes of a request to join: an exception, the lobby, or entry in a role.
pub data Entry : Type 0 where
  refused : HttpError → Entry
  held : Entry
  enters : ParticipantRole → Entry

-- The rule: nobody enters a meeting that is over; its host enters; a guest who was kicked is refused;
-- where there is a waiting room, a guest who was not let in is held.
unfoldable pub entry : Meeting → String → Standing → Entry
entry m user_id s =
    if is_over m.status
    then refused (forbidden "This meeting is no longer active")
    else if m.host_id == user_id
    then enters host
    else if s.denied
    then refused (forbidden "You were removed from this meeting")
    else if m.waiting_room_enabled && not s.admitted
    then held
    else enters guest

unfoldable pub outcome :
    Outside → String → String → ℕ → Meeting → Entry → World → Result JoinResult × World
unfolding enter
outcome out r u now m (refused e) w = (throws e, w)
outcome out r u now m held w = (ok (waiting m), w)
outcome out r u now m (enters role) w = serve (enter out r u role now m) w

join_found-entry :
    (out : Outside) (r u : String) (now : ℕ) (w : World) (m : Meeting)
    → serve (join_found out r u now (some m)) w
      ≡ outcome out r u now m (entry m u (standing r u w.redis)) w
unfolding join_found join_as gate is_denied is_admitted set_has entry outcome standing answer
join_found-entry out r u now w m = ground arith

-- `join` runs `enter` just where the rule lets the user enter; `Meetings.Entry` says what that does.
pub join-outcome :
    (out : Outside) (r u : String) (now : ℕ) (w : World) (m : Meeting)
    → by_room r w.meetings ≡ some m
    → serve (join out r u now) w ≡ outcome out r u now m (entry m u (standing r u w.redis)) w
unfolding join find_by_room query
join-outcome out r u now w m h =
    ap (λ o. serve (join_found out r u now o) w) h ∙ join_found-entry out r u now w m
