-- ===== src/Meetings/UpkeepTests.antt =====
-- A stuck meeting, looked up: meetings.service.ts, under apps/api/src/modules/meetings.
use Prim.Native.String.{◌++◌ as cat}
use vertxing.Prelude.{◌≡◌, refl, false, none, some, [], ◌∷◌}
use vertxing.Http.{forbidden, throws}
use vertxing.Meetings.World.{World, Meeting, live, by_room, by_id, serve}
use vertxing.Meetings.Service.{Outside, join}
use vertxing.Meetings.Upkeep.{get_by_room_name, vacant_lookup-join}

abbrev livekit : Outside
livekit = record {
  display_name = λ u. some u;
  server_url = "wss://sfu";
  create_access_token = λ room identity name role. cat room identity;
}

abbrev stuck : Meeting
stuck = record {
  id = "m1";
  room_name = "r";
  host_id = "hal";
  status = live;
  waiting_room_enabled = false;
  participant_count = 2;
  started_at = some 5;
  ended_at = none;
}

abbrev night : World
night = record {
  meetings = stuck ∷ [];
  participants = [];
  redis = record {
    text = λ k. none;
    counter = λ k. none;
    hash = λ k. [];
    members = λ k. [];
    ttl = λ k. none;
  };
}

vacant_lookup-join_example :
    (serve
      (join livekit "r" "hal" 200000)
      (serve (get_by_room_name (λ r. none) "r" 100000) night).1).0
    ≡ throws (forbidden "This meeting is no longer active")
unfolding by_room by_id
vacant_lookup-join_example =
    vacant_lookup-join livekit (λ r. none) "r" "hal" 5 100000 200000 night stuck refl refl refl refl
      refl refl
