-- ===== src/Meetings/World.antt =====
-- The tables `meetings` and `participants` of apps/api/prisma/schema.prisma, what Prisma documents
-- of the queries that apps/api/src/modules/meetings/meetings.repository.ts sends, and code that
-- talks to them and to Redis.
use vertxing.Prelude.{
  ℕ, String, Bool, ◌&&◌, Option, none, some, List, [], ◌∷◌, ◌==◌, if◌then◌else◌, is_some,
}
use vertxing.Http.{HttpError, Result, ok, throws}
use vertxing.Redis.Dataset.{Dataset, Command, Reply, answer}
use vertxing.Redis.Prog.{Prog, ret as done, send}

pub data MeetingStatus : Type 0 where
  scheduled live ended cancelled : MeetingStatus

pub data ParticipantRole : Type 0 where
  host co_host guest : ParticipantRole

-- The columns that the rules read, with times in milliseconds.
pub record Meeting : Type 0 where
  pub id : String
  pub room_name : String
  pub host_id : String
  pub status : MeetingStatus
  pub waiting_room_enabled : Bool
  pub participant_count : ℕ
  pub started_at : Option ℕ
  pub ended_at : Option ℕ

pub record Participant : Type 0 where
  pub meeting_id : String
  pub user_id : String
  pub role : ParticipantRole

pub record World : Type 0 where
  pub meetings : List Meeting
  pub participants : List Participant
  pub redis : Dataset

-- `Prisma.MeetingUpdateInput`: a field left out stays as it is.
pub record MeetingUpdate : Type 0 where
  pub status : Option MeetingStatus
  pub participant_count : Option ℕ
  pub started_at : Option ℕ
  pub ended_at : Option ℕ

abbrev or_kept {ℓ} : {A : Type ℓ} → Option A → A → A
or_kept none x = x
or_kept (some y) x = y

abbrev pub updated : MeetingUpdate → Meeting → Meeting
updated c m = record m {
  status = or_kept c.status m.status;
  participant_count = or_kept c.participant_count m.participant_count;
  started_at = (if is_some c.started_at then c.started_at else m.started_at);
  ended_at = (if is_some c.ended_at then c.ended_at else m.ended_at);
}

-- The room name and the id are unique.
unfoldable pub by_room : String → List Meeting → Option Meeting
by_room r [] = none
by_room r (m ∷ ms) = if m.room_name == r then some m else by_room r ms

unfoldable pub by_id : String → List Meeting → Option Meeting
by_id i [] = none
by_id i (m ∷ ms) = if m.id == i then some m else by_id i ms

unfoldable pub update_at : String → MeetingUpdate → List Meeting → List Meeting
update_at i c [] = []
update_at i c (m ∷ ms) = if m.id == i then updated c m ∷ ms else m ∷ update_at i c ms

unfoldable pub delete_at : String → List Meeting → List Meeting
delete_at i [] = []
delete_at i (m ∷ ms) = if m.id == i then ms else m ∷ delete_at i ms

unfoldable pub participant_in : String → String → List Participant → Option Participant
participant_in i u [] = none
participant_in i u (p ∷ ps) =
    if p.meeting_id == i && p.user_id == u then some p else participant_in i u ps

unfoldable pub upsert : String → String → ParticipantRole → List Participant → List Participant
upsert i u r [] = record { meeting_id = i; user_id = u; role = r } ∷ []
upsert i u r (p ∷ ps) =
    if p.meeting_id == i && p.user_id == u then record p { role = r } ∷ ps else p ∷ upsert i u r ps

pub data Query : Type 0 where
  find_by_room_name : String → Query
  find_participant : String → String → Query
  update : String → MeetingUpdate → Query
  delete : String → Query
  upsert_participant : String → String → ParticipantRole → Query

abbrev pub Rows : Query → Type 0
Rows (find_by_room_name r) = Option Meeting
Rows (find_participant i u) = Option Participant
Rows (update i c) = Option Meeting
Rows (delete i) = Option Meeting
Rows (upsert_participant i u r) = Unit

-- A deletion cascades to participants, whose rows no rule reads without their meeting: they stay.
unfoldable pub query : (q : Query) → World → Rows q × World
query (find_by_room_name r) w = (by_room r w.meetings, w)
query (find_participant i u) w = (participant_in i u w.participants, w)
query (update i c) w = let ms = update_at i c w.meetings in (by_id i ms, record w { meetings = ms })
query (delete i) w = (by_id i w.meetings, record w { meetings = delete_at i w.meetings })
query (upsert_participant i u r) w = (tt, record w { participants = upsert i u r w.participants })

pub data App {ℓ} (A : Type ℓ) : Type ℓ where
  ret : A → App A
  throw : HttpError → App A
  ask : (q : Query) → (Rows q → App A) → App A
  tell : (m : Command) → (Reply m → App A) → App A

infixl 5 ◌>>=◌ ◌>>◌
abbrev pub ◌>>=◌ {ℓ κ} : {A : Type ℓ} {B : Type κ} → App A → (A → App B) → App B
ret a >>= f = f a
throw e >>= f = throw e
ask q k >>= f = ask q (λ r. k r >>= f)
tell m k >>= f = tell m (λ r. k r >>= f)

abbrev pub ◌>>◌ {ℓ κ} : {A : Type ℓ} {B : Type κ} → App A → App B → App B
m >> n = m >>= λ _. n

-- Code that talks to Redis only.
abbrev pub lift {ℓ} : {A : Type ℓ} → Prog A → App A
lift (done a) = ret a
lift (send m k) = tell m (λ r. lift (k r))

abbrev pub or_throw {ℓ} : {A : Type ℓ} → HttpError → Option A → App A
or_throw e none = throw e
or_throw e (some a) = ret a

-- The code runs with no other request between its commands.
abbrev pub serve {ℓ} : {A : Type ℓ} → App A → World → Result A × World
serve (ret a) w = (ok a, w)
serve (throw e) w = (throws e, w)
serve (ask q k) w = let (r, w') = query q w in serve (k r) w'
serve (tell m k) w = let (r, d) = answer m w.redis in serve (k r) (record w { redis = d })
