-- ===== src/Meetings/Upkeep.antt =====
-- Meetings that are looked up and kept honest: `getByRoomName` and `reconcile` of
-- apps/api/src/modules/meetings/meetings.service.ts. How many participants LiveKit counts in a room,
-- if there is such a room, is a parameter; the time is an argument.
use vertxing.Prelude.{
  ℕ, ◌-◌, ◌*◌, ◌≡◌, ◌∙◌, refl, sym, ap, String, Bool, true, false, not, ◌&&◌, Option, none, some,
  List, [], ◌∷◌, ◌==◌, arith, eq_refl, Bool-cases, inl, inr, ltb, leb, if◌then◌else◌,
}
use vertxing.Http.{HttpError, not_found, forbidden, internal, throws}
use vertxing.Meetings.World.{
  World, MeetingStatus, live, ended, Meeting, MeetingUpdate, updated, by_room, by_id, update_at,
  query, App, ret, throw, or_throw, serve, ◌>>=◌, ◌>>◌,
}
use vertxing.Meetings.Service.{
  Outside, find_by_room, update_meeting, no_change, try_end_room, is_over, join,
}
use vertxing.Redis.Dataset.{answer}
use vertxing.Redis.Service.{delete as delete_key}
use vertxing.WaitingRoom.{clear_room}
use vertxing.WaitingRoom.Laws.{Standing, standing}
use vertxing.Meetings.Joining.{refused, entry, outcome, join-outcome}

abbrev pub is_live : MeetingStatus → Bool
is_live live = true
is_live _ = false

abbrev pub grace : ℕ
grace = 90 * 1000

-- `m.startedAt && Date.now() - m.startedAt.getTime() < 90_000`
abbrev pub is_fresh : Option ℕ → ℕ → Bool
is_fresh none now = false
is_fresh (some t) now = ltb (now - t) grace

-- `reconcile` with LiveKit's count.
unfoldable pub synced : Option ℕ → ℕ → Meeting → App Meeting
unfolding try_end_room update_meeting
synced none now m = do
  try_end_room m.room_name
  update_meeting m.id
      (record no_change { status = some ended; ended_at = some now; participant_count = some 0 })
synced (some count) now m =
    if leb count 0
    then (do
      try_end_room m.room_name
      update_meeting m.id (record no_change {
        status = some ended;
        ended_at = some now;
        participant_count = some 0;
      }))
    else if not (leb count m.participant_count && leb m.participant_count count)
    then update_meeting m.id (record no_change { participant_count = some count })
    else ret m

unfoldable pub reconcile : (String → Option ℕ) → ℕ → Meeting → App Meeting
unfolding synced
reconcile room_count now m =
    if not (is_live m.status)
    then ret m
    else if is_fresh m.started_at now
    then ret m
    else synced (room_count m.room_name) now m

unfoldable pub looked_up : (String → Option ℕ) → ℕ → Option Meeting → App Meeting
unfolding reconcile
looked_up room_count now none = throw (not_found "Meeting not found")
looked_up room_count now (some m) = reconcile room_count now m

unfoldable pub get_by_room_name : (String → Option ℕ) → String → ℕ → App Meeting
unfolding find_by_room looked_up
get_by_room_name room_count room_name now = do
  found ← find_by_room room_name
  looked_up room_count now found

abbrev pub closing : ℕ → MeetingUpdate
closing now = record no_change {
  status = some ended;
  ended_at = some now;
  participant_count = some 0;
}

by_room-room :
    (r : String) (m : Meeting) (ms : List Meeting)
    → by_room r ms ≡ some m
    → (m.room_name == r) ≡ true
unfolding by_room
by_room-room r m [] h = absurd (cc h)
by_room-room r m (n ∷ ms) h = ground (arith, by_room-room r m ms)

same_meeting : (n m : Meeting) → some n ≡ some m → n ≡ m
same_meeting n m h = ground arith

by_room-update_at :
    (r : String) (c : MeetingUpdate) (m : Meeting) (ms : List Meeting)
    → by_room r ms ≡ some m
    → by_id m.id ms ≡ some m
    → by_room r (update_at m.id c ms) ≡ some (updated c m)
unfolding by_room by_id update_at
by_room-update_at r c m [] h k = absurd (cc h)
by_room-update_at r c m (n ∷ ms) h k = elim (Bool-cases (n.id == m.id)) [
  | inl e ↦
      let p = same_meeting n m (ap (λ b. if b then some n else by_id m.id ms) (sym e) ∙ k) in
      let q = ap (λ x. x.room_name == r) p ∙ by_room-room r m (n ∷ ms) h in
      ap (λ b. by_room r (if b then updated c n ∷ ms else n ∷ update_at m.id c ms)) e
      ∙ ap (λ b. if b then some (updated c n) else by_room r ms) q
      ∙ ap (λ x. some (updated c x)) p
  | inr e ↦
      ap (λ b. by_room r (if b then updated c n ∷ ms else n ∷ update_at m.id c ms)) e
      ∙ ground (arith, by_room-update_at r c m ms, e, eq_refl m.id)
]

-- LiveKit knows no such room, or one without participants.
abbrev pub is_vacant : Option ℕ → Bool
is_vacant none = true
is_vacant (some n) = leb n 0

or_throw-state :
    {A : Type 0} (e : HttpError) (o : Option A) (w : World) → (serve (or_throw e o) w).1 ≡ w
or_throw-state e none w = refl
or_throw-state e (some a) w = refl

-- The meeting's row after it was closed, in the tables that are left.
closed :
    (now : ℕ) (m : Meeting) (w : World)
    → (serve (try_end_room m.room_name >> update_meeting m.id (closing now)) w).1.meetings
      ≡ update_at m.id (closing now) w.meetings
unfolding try_end_room clear_room delete_key update_meeting query answer
closed now m w = ap (λ x. x.meetings) (or_throw-state internal _ _)

synced_closed :
    (count : Option ℕ) (now : ℕ) (m : Meeting) (w : World)
    → is_vacant count ≡ true
    → (serve (synced count now m) w).1.meetings ≡ update_at m.id (closing now) w.meetings
unfolding synced
synced_closed none now m w h = closed now m w
synced_closed (some n) now m w h =
    ap
      (λ b.
        (serve
          (if b
            then (try_end_room m.room_name >> update_meeting m.id (closing now))
            else if not (leb n m.participant_count && leb m.participant_count n)
            then update_meeting m.id (record no_change { participant_count = some n })
            else ret m)
          w).1.meetings)
      h
    ∙ closed now m w

entry_over :
    (m : Meeting) (u : String) (s : Standing)
    → is_over m.status ≡ true
    → entry m u s ≡ refused (forbidden "This meeting is no longer active")
unfolding entry
entry_over m u s o = ground arith

join_over :
    (out : Outside) (r u : String) (now : ℕ) (w : World) (m : Meeting)
    → by_room r w.meetings ≡ some m
    → is_over m.status ≡ true
    → (serve (join out r u now) w).0 ≡ throws (forbidden "This meeting is no longer active")
unfolding outcome
join_over out r u now w m h o =
    ap (λ x. x.0) (join-outcome out r u now w m h)
    ∙ ap (λ e. (outcome out r u now m e w).0) (entry_over m u (standing r u w.redis) o)

-- Once a live meeting that is past its grace and has nobody in its room is looked up, nobody joins it
-- any more, not even its host.
pub vacant_lookup-join :
    (out : Outside) (room_count : String → Option ℕ) (r u : String) (t now later : ℕ) (w : World)
    (m : Meeting)
    → by_room r w.meetings ≡ some m
    → by_id m.id w.meetings ≡ some m
    → m.status ≡ live
    → m.started_at ≡ some t
    → ltb (now - t) grace ≡ false
    → is_vacant (room_count m.room_name) ≡ true
    → (serve (join out r u later) (serve (get_by_room_name room_count r now) w).1).0
      ≡ throws (forbidden "This meeting is no longer active")
unfolding get_by_room_name find_by_room looked_up reconcile query
vacant_lookup-join out room_count r u t now later w m h k l s g v =
    let w' = (serve (get_by_room_name room_count r now) w).1 in
    let p : w'.meetings ≡ update_at m.id (closing now) w.meetings =
      ap (λ o. (serve (looked_up room_count now o) w).1.meetings) h
      ∙ ap
          (λ x.
            (serve
              (if not (is_live x)
                then ret m
                else if is_fresh m.started_at now
                then ret m
                else synced (room_count m.room_name) now m)
              w).1.meetings)
          l
      ∙ ap
          (λ x.
            (serve (if is_fresh x now then ret m else synced (room_count m.room_name) now m)
              w).1.meetings)
          s
      ∙ ap (λ b. (serve (if b then ret m else synced (room_count m.room_name) now m) w).1.meetings)
          g
      ∙ synced_closed (room_count m.room_name) now m w v in
    join_over out r u later w' (updated (closing now) m)
      (ap (by_room r) p ∙ by_room-update_at r (closing now) m w.meetings h k) refl
