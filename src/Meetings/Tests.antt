-- ===== src/Meetings/Tests.antt =====
-- The theorems on meetings at concrete meetings: meetings.service.ts, under
-- apps/api/src/modules/meetings.
use Prim.Native.String.{◌++◌ as cat}
use vertxing.Prelude.{◌≡◌, refl, true, none, some, [], ◌∷◌, ◌==◌, if◌then◌else◌}
use vertxing.Http.{forbidden, throws}
use vertxing.Meetings.World.{World, Meeting, live, co_host, guest, by_room, participant_in, serve}
use vertxing.Meetings.Service.{Outside, join, remove_participant}
use vertxing.Meetings.Managing.{
  may_manage, removes, manage_meeting, not_yours, manage_meeting_refused, remove_participant-join,
}

abbrev livekit : Outside
livekit = record {
  display_name = λ u. some u;
  server_url = "wss://sfu";
  create_access_token = λ room identity name role. cat room identity;
}

abbrev standup : Meeting
standup = record {
  id = "m1";
  room_name = "r";
  host_id = "hal";
  status = live;
  waiting_room_enabled = true;
  participant_count = 2;
  started_at = some 5;
  ended_at = none;
}

-- Hal hosts, Cora is a co-host, and Gus was let in.
abbrev office_hours : World
office_hours = record {
  meetings = standup ∷ [];
  participants =
      record { meeting_id = "m1"; user_id = "cora"; role = co_host }
      ∷ record { meeting_id = "m1"; user_id = "gus"; role = guest }
      ∷ [];
  redis = record {
    text = λ k. none;
    counter = λ k. none;
    hash = λ k. [];
    members = λ k. if k == "admitted:room:r" then "gus" ∷ [] else [];
    ttl = λ k. none;
  };
}

manage_meeting_refused_example :
    serve (manage_meeting "r" "gus" (removes "cora")) office_hours
    ≡ (throws not_yours, office_hours)
unfolding by_room may_manage participant_in
manage_meeting_refused_example =
    manage_meeting_refused "r" "gus" (removes "cora") office_hours standup refl refl

remove_participant-join_example :
    (serve
      (join livekit "r" "gus" 9)
      (serve (remove_participant "r" "cora" "gus") office_hours).1).0
    ≡ throws (forbidden "You were removed from this meeting")
unfolding by_room may_manage participant_in
remove_participant-join_example =
    remove_participant-join livekit "r" "cora" "gus" 9 office_hours standup refl refl refl refl
