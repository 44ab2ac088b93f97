-- ===== src/Meetings/Entry.antt =====
-- What it is to enter a meeting: `join` of apps/api/src/modules/meetings/meetings.service.ts.
use vertxing.Prelude.{
  ℕ, String, ◌≡◌, refl, true, some, List, [], ◌∷◌, arith, eq_refl, eq_iff, if◌then◌else◌,
  Bool-cases, inl, inr,
}
use vertxing.Http.{Result, ok, throws}
use vertxing.Redis.Dataset.{Dataset, has, answer, sadd}
use vertxing.Redis.Service.{add_to_set}
use vertxing.Redis.Laws.{members-set_members_at}
use vertxing.Meetings.World.{
  World, Meeting, live, Participant, ParticipantRole, MeetingUpdate, by_id, update_at, updated,
  participant_in, upsert, query, serve,
}
use vertxing.Meetings.Service.{
  Outside, JoinResult, admitted, waiting, is_scheduled, enter, presence_key, mark_live,
  update_meeting, no_change,
}
use vertxing.Meetings.Joining.{Entry, refused, held, enters, outcome}

-- A meeting once somebody has entered: one that was scheduled is live from now on.
abbrev pub opened : ℕ → Meeting → Meeting
opened now m =
    if is_scheduled m.status then record m { status = live; started_at = some now } else m

-- What entering does: the user is answered with the meeting, the role and a token of this room for
-- this user, by name and in this role; is a participant in the role and present in the room; and the
-- meeting is open.
pub record Entered (out : Outside) (r u name : String) (role : ParticipantRole) (now : ℕ)
    (m : Meeting) (result : Result JoinResult × World) : Type 0 where
  pub answer :
      result.0
      ≡ ok (admitted (opened now m) role out.server_url (out.create_access_token r u name role) u)
  pub seated :
      participant_in m.id u result.1.participants
      ≡ some (record { meeting_id = m.id; user_id = u; role = role })
  pub present : has u (result.1.redis.members (presence_key r)) ≡ true
  pub open_now : by_id m.id result.1.meetings ≡ some (opened now m)

-- What each kind of entry means.
abbrev pub Answers :
    Outside
    → String
    → String
    → String
    → ℕ
    → Meeting
    → World
    → Entry
    → Result JoinResult × World
    → Type 0
Answers out r u name now m w (refused e) result = result ≡ (throws e, w)
Answers out r u name now m w held result = result ≡ (ok (waiting m), w)
Answers out r u name now m w (enters role) result = Entered out r u name role now m result

participant_in-upsert :
    (i u : String) (role : ParticipantRole) (ps : List Participant)
    → participant_in i u (upsert i u role ps)
      ≡ some (record { meeting_id = i; user_id = u; role = role })
unfolding participant_in upsert
participant_in-upsert i u role [] = ground (arith, eq_refl i, eq_refl u)
participant_in-upsert i u role (p ∷ ps) = ground (
  arith,
  eq_refl i,
  eq_refl u,
  eq_iff p.meeting_id i,
  eq_iff p.user_id u,
  participant_in-upsert i u role ps,
)

by_id-update_at :
    (i : String) (c : MeetingUpdate) (ms : List Meeting) (m : Meeting)
    → by_id i ms ≡ some m
    → by_id i (update_at i c ms) ≡ some (updated c m)
unfolding by_id update_at
by_id-update_at i c [] m h = absurd (cc h)
by_id-update_at i c (x ∷ ms) m h = ground (arith, by_id-update_at i c ms m)

has-sadd : (k u : String) (d : Dataset) → has u ((answer (sadd k u) d).1.members k) ≡ true
unfolding answer has
has-sadd k u d = elim (Bool-cases (has u (d.members k))) [
  | inl e ↦ ground (arith, e)
  | inr e ↦ ground (arith, e, eq_refl k, eq_refl u, members-set_members_at k k (u ∷ d.members k) d)
]

enter-Entered :
    (out : Outside) (r u name : String) (role : ParticipantRole) (now : ℕ) (m : Meeting) (w : World)
    → out.display_name u ≡ some name
    → by_id m.id w.meetings ≡ some m
    → Entered out r u name role now m (serve (enter out r u role now m) w)
unfolding enter mark_live update_meeting query presence_key add_to_set
enter-Entered out r u name role now m w n h =
    let p = participant_in-upsert m.id u role w.participants in
    let k = has-sadd (presence_key r) u w.redis in
    elim (Bool-cases (is_scheduled m.status)) [
      | inl e ↦
          let g =
            by_id-update_at m.id (record no_change { status = some live; started_at = some now })
              w.meetings m h in
          record {
            answer = ground (arith, e, n, g);
            seated = ground (arith, e, n, g, p);
            present = ground (arith, e, n, g, k);
            open_now = ground (arith, e, n, g);
          }
      | inr e ↦ record {
        answer = ground (arith, e, n);
        seated = ground (arith, e, n, p);
        present = ground (arith, e, n, k);
        open_now = ground (arith, e, n, h);
      }
    ]

pub outcome-Answers :
    (out : Outside) (r u name : String) (now : ℕ) (m : Meeting) (w : World) (e : Entry)
    → out.display_name u ≡ some name
    → by_id m.id w.meetings ≡ some m
    → Answers out r u name now m w e (outcome out r u now m e w)
unfolding outcome
outcome-Answers out r u name now m w (refused x) n h = refl
outcome-Answers out r u name now m w held n h = refl
outcome-Answers out r u name now m w (enters role) n h = enter-Entered out r u name role now m w n h
