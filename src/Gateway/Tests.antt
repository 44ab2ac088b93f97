-- ===== src/Gateway/Tests.antt =====
-- The gateway's theorems at concrete calls and meetings: events.gateway.ts, under
-- apps/api/src/modules/realtime.
use Prim.Native.String.{◌++◌ as cat}
use vertxing.Prelude.{
  String, Bool, ◌≡◌, ◌≢◌, refl, true, false, none, some, List, [], ◌∷◌, ◌==◌, if◌then◌else◌, arith,
  lookup, eq_iff,
}
use vertxing.Http.{forbidden, ok, throws}
use vertxing.Redis.Dataset.{Dataset, has}
use vertxing.Redis.Prog.{run}
use vertxing.Call.Types.{CallParty, CallMeta, call_key, ended, field}
use vertxing.WaitingRoom.{waiting_key, denied_key}
use vertxing.WaitingRoom.Laws.{standing}
use vertxing.Meetings.World.{World, Meeting, live, guest, by_room, by_id, participant_in, serve}
use vertxing.Meetings.Service.{Outside as Media, join}
use vertxing.Meetings.Entry.{Entered}
use vertxing.Meetings.Managing.{may_manage}
use vertxing.Gateway.{SocketData, Outside, to_room, to_self, let_in, call_ended, user_room}
use vertxing.Gateway.Connection.{handle_disconnect}
use vertxing.Gateway.Waiting.{on_knock}
use vertxing.Gateway.Calls.{on_call_accept, on_call_hangup}
use vertxing.Gateway.Delivery.{hears, hears_own}
use vertxing.Gateway.Admission.{
  admits, denies, verdict_decision, verdict_message, on_verdict, decides_for,
  on_verdict-decides_for,
}
use vertxing.Gateway.Entering.{knock-admit-join, open_knock-refused}
use vertxing.Gateway.Teardown.{hangup_button, press, on_button, may_end, message, button_ends_both}
use vertxing.Gateway.Leaving.{takes_down, in_call, disconnect-ends}
use vertxing.Gateway.Signalling.{connected, accept_connects, early_cancel-connects}
use vertxing.Gateway.Adding.{added_hangup-keeps}
use vertxing.Web.Screen.{
  Screen, Livekit, active, incoming, outgoing, idle_call, first_screen, step, calls_user,
  presses_cancel, presses_hangup, got_ringing, got_accepted, sends_invite, sends_hangup,
  adds_to_call, sends_add,
}

abbrev ann : CallParty
ann = record { user_id = "ann"; name = "Ann" }

abbrev bob : CallParty
bob = record { user_id = "bob"; name = "Bob" }

abbrev outside : Outside
outside = record {
  services = record {
    can_start_calls = λ u. true;
    accepts_calls = λ u. true;
    has_subscriptions = λ u. false;
    server_url = "wss://sfu";
    create_access_token = λ room identity name. cat room identity;
  };
  verify = λ t. some t;
  display_name = λ u. some u;
  fcm_token = λ u. none;
}

-- Ann's call k to Bob in some state.
abbrev meta : String → CallMeta
meta state =
    ("state", state)
    ∷ ("callerId", "ann")
    ∷ ("callerName", "Ann")
    ∷ ("calleeId", "bob")
    ∷ ("mode", "VIDEO")
    ∷ ("roomName", "call-k")
    ∷ []

abbrev holding : String → Dataset
holding state = record {
  text = λ j. none;
  counter = λ j. none;
  hash = λ j. if j == "call:k" then meta state else [];
  members = λ j. [];
  ttl = λ j. none;
}

abbrev at : Dataset → World
at d = record { meetings = []; participants = []; redis = d }

abbrev anns_screen : Screen
anns_screen = record {
  call = record {
    status = outgoing;
    call_id = some "k";
    peer = some record { id = "bob"; name = "Bob" };
    mode = "VIDEO";
    livekit = none;
  };
  ring_started = true;
  notice = none;
  has_socket = true;
}

abbrev bobs_screen : Screen
bobs_screen = record {
  call = record {
    status = incoming;
    call_id = some "k";
    peer = some record { id = "ann"; name = "Ann" };
    mode = "VIDEO";
    livekit = none;
  };
  ring_started = true;
  notice = none;
  has_socket = true;
}

abbrev media : Livekit
media = record { url = "wss://sfu"; token = "t" }

ann-bob : ann.user_id ≢ bob.user_id
ann-bob e = ground (arith, eq_iff ann.user_id bob.user_id, e)

accept_connects_example :
    let reaction = (run (on_call_accept outside (in_call bob "k") bob "k") (holding "RINGING")).0 in
    (hears_own "user:bob" reaction.1 bobs_screen
      ≡ connected "k" "VIDEO" record { url = "wss://sfu"; token = "call-kbob" } bobs_screen)
    × (hears "user:ann" reaction.1 anns_screen
        ≡ connected "k" "VIDEO" record { url = "wss://sfu"; token = "call-kann" } anns_screen)
    × (reaction.0.call_id ≡ some "k")
unfolding call_key user_room lookup
accept_connects_example =
    accept_connects outside (in_call bob "k") bob "k" (holding "RINGING") bobs_screen anns_screen
      refl refl refl ann-bob

button_ends_both_example :
    let (reaction, d') =
      run (on_button hangup_button (in_call ann "k") ann "k") (holding "ACTIVE") in
    ((step anns_screen (press hangup_button)).1 ≡ message hangup_button "k" ∷ [])
    × ((step anns_screen (press hangup_button)).0.call ≡ idle_call)
    × ((hears "user:bob" reaction.1 bobs_screen).call ≡ idle_call)
    × (d'.hash "call:k" ≡ [])
unfolding call_key user_room lookup may_end
button_ends_both_example =
    button_ends_both hangup_button (in_call ann "k") ann "k" (holding "ACTIVE") anns_screen
      bobs_screen refl refl refl refl refl refl

disconnect-ends_example :
    let (result, w') = serve (handle_disconnect (in_call bob "k")) (at (holding "ACTIVE")) in
    (result ≡ ok (to_room "user:ann" (call_ended "k" ended) ∷ [])) × (w'.redis.hash "call:k" ≡ [])
unfolding call_key user_room lookup takes_down
disconnect-ends_example = disconnect-ends bob "k" (at (holding "ACTIVE")) refl refl refl

early_cancel-connects_example :
    let (s1, sent1) =
      step
        record first_screen { has_socket = true }
        (calls_user record { id = "bob"; name = "Bob" } "AUDIO") in
    let (s2, sent2) = step s1 presses_cancel in
    let (s3, sent3) = step s2 (got_ringing "k") in
    let (s4, sent4) = step s3 (got_accepted "k" "AUDIO" media) in
    (sent1 ≡ sends_invite "bob" "AUDIO" ∷ [])
    × (sent2 ≡ [])
    × (s3.call ≡ idle_call)
    × (sent3 ≡ [])
    × (s4.call.status ≡ active)
    × (s4.call.peer ≡ none)
early_cancel-connects_example =
    early_cancel-connects record first_screen { has_socket = true }
      record { id = "bob"; name = "Bob" } "AUDIO" "k" "AUDIO" media refl refl

abbrev first_call : String
first_call = "k"

abbrev added_call : String
added_call = "l"

first-added : first_call ≢ added_call
first-added e = ground (arith, eq_iff first_call added_call, e)

abbrev carols_meta : List (String × String)
carols_meta =
    ("state", "ACTIVE")
    ∷ ("callerId", "ann")
    ∷ ("callerName", "Ann")
    ∷ ("calleeId", "carol")
    ∷ ("mode", "AUDIO")
    ∷ ("roomName", "call-k")
    ∷ []

-- Ann talks with Bob in call k, and has added Carol, in call l.
abbrev two_calls : Dataset
two_calls = record (holding "ACTIVE") {
  hash = λ j. if j == "call:l" then carols_meta else (holding "ACTIVE").hash j;
}

abbrev anns_talk : Screen
anns_talk = connected "k" "VIDEO" media anns_screen

added_hangup-keeps_example :
    let (s1, sent1) = step anns_talk (adds_to_call "carol") in
    let (s2, sent2) = step s1 (got_accepted "l" "AUDIO" media) in
    let (s3, sent3) = step s2 presses_hangup in
    let (reaction, d) = run (on_call_hangup (in_call ann "k") ann "l") two_calls in
    let (left, w') = serve (handle_disconnect reaction.0) (record (at two_calls) { redis = d }) in
    (sent1 ≡ sends_add "k" "carol" ∷ [])
    × (s2.call.call_id ≡ some "l")
    × (sent3 ≡ sends_hangup "l" ∷ [])
    × (s3.call ≡ idle_call)
    × (reaction.1 ≡ to_room "user:carol" (call_ended "l" ended) ∷ [])
    × (w'.redis.hash "call:l" ≡ [])
    × (left ≡ ok [])
    × (w'.redis.hash "call:k" ≡ meta "ACTIVE")
    × (field "state" (w'.redis.hash "call:k") ≡ "ACTIVE")
unfolding call_key user_room lookup
added_hangup-keeps_example =
    added_hangup-keeps anns_talk ann "k" "l" "carol" "AUDIO" media (at two_calls) refl refl refl
      refl refl first-added refl refl refl refl refl

abbrev livekit : Media
livekit = record {
  display_name = λ u. if u == "bob" then some "Bob" else some u;
  server_url = "wss://sfu";
  create_access_token = λ room identity name role. cat room identity;
}

-- Ann's meeting in room r, with or without a waiting room.
abbrev anns_meeting : Bool → Meeting
anns_meeting gate = record {
  id = "m1";
  room_name = "r";
  host_id = "ann";
  status = live;
  waiting_room_enabled = gate;
  participant_count = 2;
  started_at = some 5;
  ended_at = none;
}

-- Bob was removed from it.
abbrev meeting_room : Bool → World
meeting_room gate = record {
  meetings = anns_meeting gate ∷ [];
  participants = [];
  redis = record {
    text = λ j. none;
    counter = λ j. none;
    hash = λ j. [];
    members = λ j. if j == "denied:room:r" then "bob" ∷ [] else [];
    ttl = λ j. none;
  };
}

abbrev socket_of : CallParty → SocketData
socket_of user = record { user = some user; knocking_room = none; call_id = none }

on_verdict-decides_for_example :
    serve (on_verdict denies (socket_of bob) bob "r" "gus") (meeting_room true)
    ≡ decides_for false
        (socket_of bob)
        "r"
        "gus"
        (verdict_decision denies)
        (verdict_message denies "r")
        (meeting_room true)
unfolding by_room may_manage participant_in
on_verdict-decides_for_example =
    on_verdict-decides_for denies (socket_of bob) bob "r" "gus" (meeting_room true)
      (anns_meeting true) refl

knock-admit-join_example :
    let w1 = (serve (on_knock (socket_of bob) bob "r") (meeting_room true)).1 in
    let w2 = (serve (on_verdict admits (socket_of ann) ann "r" "bob") w1).1 in
    Entered livekit "r" "bob" "Bob" guest 9
      (anns_meeting true)
      (serve (join livekit "r" "bob" 9) w2)
unfolding by_room by_id may_manage
knock-admit-join_example =
    knock-admit-join livekit (socket_of bob) (socket_of ann) ann bob "r" "Bob" 9 (meeting_room true)
      (anns_meeting true) refl refl refl refl refl refl refl

open_knock-refused_example :
    (serve (on_knock (socket_of bob) bob "r") (meeting_room false)
      ≡ (ok (socket_of bob, to_self (let_in "r") ∷ []), meeting_room false))
    × (serve (on_verdict admits (socket_of ann) ann "r" "bob") (meeting_room false)
        ≡ (ok (socket_of ann, []), meeting_room false))
    × (serve (join livekit "r" "bob" 9) (meeting_room false)
        ≡ (throws (forbidden "You were removed from this meeting"), meeting_room false))
unfolding by_room standing waiting_key denied_key lookup has
open_knock-refused_example =
    open_knock-refused livekit (socket_of bob) (socket_of ann) ann bob "r" 9 (meeting_room false)
      (anns_meeting false) refl refl refl refl refl refl
