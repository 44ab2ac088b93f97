-- ===== src/Call/Tests.antt =====
-- The theorems on calls at concrete calls: call.service.ts, under
-- apps/api/src/modules/realtime.
use Prim.Native.String.{◌++◌ as cat}
use vertxing.Prelude.{
  ◌≤◌, ◌≡◌, ◌≢◌, refl, true, false, none, some, [], ◌∷◌, map, ◌==◌, arith, eq_iff, if◌then◌else◌,
  lookup, leb,
}
use vertxing.Redis.Dataset.{Dataset, elapse, answer, put, put_all, has}
use vertxing.Keys.{sort_pair}
use vertxing.Redis.Prog.{run}
use vertxing.Redis.Service.{
  set_has, set_if_absent, hash_set_object, expire, hash_get_all, compare_and_set_hash_field, delete,
  delete_if_equals,
}
use vertxing.Call.Types.{
  accepted, active_ttl, CallParty, Services, CallMeta, busy, forbidden, call_key, pair_key,
  presence_count_key, ring_ttl,
}
use vertxing.Call.Placing.{invite, accept}
use vertxing.Call.Ending.{timeout}
use vertxing.Call.Presence.{is_online}
use vertxing.Call.Race.{turn, wait, interleave, winners}
use vertxing.Call.Contest.{accepts, cancels, times_out, thread, one_winner}
use vertxing.Call.Endings.{
  ending, by_cancel, by_decline, by_hangup, by_drop, lock, dropped, drop-dropped, ending_cleans,
  ending_refused, ending_keeps_locks, ending_gone, ending_once,
}
use vertxing.Call.Accepting.{
  may_accept, accept-may_accept, accept_refused, accept_wins, accept_starts,
}
use vertxing.Call.Glare.{
  may_invite, is_invited, invite-may_invite, invite_refused, invite_starts, glare, placed-timeout,
  placed_expires,
}
use vertxing.Call.PresenceLaws.{opens, closes, run_events, sockets_of, presence_exact}

abbrev ann : CallParty
ann = record { user_id = "ann"; name = "Ann" }

abbrev bob : CallParty
bob = record { user_id = "bob"; name = "Bob" }

abbrev everyone_calls : Services
everyone_calls = record {
  can_start_calls = λ u. true;
  accepts_calls = λ u. true;
  has_subscriptions = λ u. false;
  server_url = "wss://sfu";
  create_access_token = λ room identity name. cat room identity;
}

-- Bob is online, and nothing else is there.
abbrev quiet_night : Dataset
quiet_night = record {
  text = λ k. none;
  counter = λ k. none;
  hash = λ k. [];
  members = λ k. if k == "presence:online" then "bob" ∷ [] else [];
  ttl = λ k. none;
}

-- Ann's call to Bob, ringing.
abbrev ringing_meta : CallMeta
ringing_meta =
    ("state", "RINGING")
    ∷ ("callerId", "ann")
    ∷ ("callerName", "Ann")
    ∷ ("calleeId", "bob")
    ∷ ("mode", "video")
    ∷ ("roomName", "call-c1")
    ∷ []

abbrev ringing_night : Dataset
ringing_night = record quiet_night {
  text = λ k.
      if k == "calllock:ann:bob"
      then some "c1"
      else if k == "calllock:cat:dan"
      then some "c2"
      else none;
  hash = λ k. if k == "call:c1" then ringing_meta else [];
  ttl = λ k. if k == "call:c1" then some 40 else if k == "calllock:ann:bob" then some 40 else none;
}

one_winner_example :
    winners
      (interleave
        (turn 0 ∷ turn 1 ∷ turn 0 ∷ turn 1 ∷ turn 0 ∷ turn 1 ∷ wait 3 ∷ turn 1 ∷ turn 0 ∷ [])
        (map (thread everyone_calls "c1") (accepts bob ∷ cancels "ann" ∷ times_out ∷ []))
        ringing_night).0
    ≤ 1
one_winner_example =
    one_winner everyone_calls "c1" (accepts bob ∷ cancels "ann" ∷ times_out ∷ [])
      (turn 0 ∷ turn 1 ∷ turn 0 ∷ turn 1 ∷ turn 0 ∷ turn 1 ∷ wait 3 ∷ turn 1 ∷ turn 0 ∷ [])
      ringing_night

-- Somebody does win this race.
one_winner_reached :
    winners
      (interleave
        (turn 0
          ∷ turn 1
          ∷ turn 0
          ∷ turn 1
          ∷ turn 0
          ∷ turn 1
          ∷ wait 3
          ∷ turn 1
          ∷ turn 0
          ∷ turn 0
          ∷ [])
        (map (thread everyone_calls "c1") (accepts bob ∷ cancels "ann" ∷ []))
        ringing_night).0
    ≡ 1
unfolding winners interleave thread compare_and_set_hash_field hash_get_all expire delete
    delete_if_equals answer put lookup elapse call_key pair_key sort_pair
one_winner_reached = refl

ending_cleans_example :
    ((run (ending "c1" (by_cancel "ann")) ringing_night).1.hash (call_key "c1") ≡ [])
    × ((run (ending "c1" (by_cancel "ann")) ringing_night).1.text (lock "c1" ringing_night)
        ≢ some "c1")
unfolding ending compare_and_set_hash_field hash_get_all delete delete_if_equals answer put lookup
    call_key pair_key sort_pair
ending_cleans_example = ending_cleans "c1" ringing_night (by_cancel "ann") refl

ending_refused_example : (run (ending "c1" (by_cancel "bob")) ringing_night).1 ≡ ringing_night
unfolding ending compare_and_set_hash_field hash_get_all delete delete_if_equals answer put lookup
    call_key pair_key sort_pair
ending_refused_example = ending_refused "c1" ringing_night (by_cancel "bob") refl

ending_keeps_locks_example :
    (run (ending "c1" (by_cancel "ann")) ringing_night).1.text (pair_key "dan" "cat") ≡ some "c2"
unfolding pair_key sort_pair
ending_keeps_locks_example =
    ending_keeps_locks "c1" ringing_night (by_cancel "ann") "dan" "cat" "c2"
      (λ e. ground (arith, (eq_iff "c2" "c1").1 e)) refl

ending_gone_example : run (ending "c1" (by_hangup "ann")) quiet_night ≡ (false, quiet_night)
ending_gone_example = ending_gone "c1" quiet_night refl (by_hangup "ann")

ending_once_example :
    run (ending "c1" (by_decline "bob")) (run (ending "c1" (by_cancel "ann")) ringing_night).1
    ≡ (false, (run (ending "c1" (by_cancel "ann")) ringing_night).1)
unfolding ending compare_and_set_hash_field hash_get_all delete delete_if_equals answer put lookup
    call_key pair_key sort_pair
ending_once_example = ending_once "c1" ringing_night (by_cancel "ann") (by_decline "bob") refl

drop-dropped_example :
    run (ending "c1" (by_drop "bob")) ringing_night ≡ dropped "c1" ringing_night "bob"
drop-dropped_example = drop-dropped "c1" ringing_night "bob"

accept-may_accept_example :
    (run (accept everyone_calls "c1" bob) ringing_night).0
    ≡ may_accept everyone_calls "c1" bob ringing_night
accept-may_accept_example = accept-may_accept everyone_calls "c1" bob ringing_night

accept_refused_example : (run (accept everyone_calls "c1" ann) ringing_night).1 ≡ ringing_night
unfolding accept compare_and_set_hash_field hash_get_all expire answer put lookup call_key pair_key
    sort_pair
accept_refused_example = accept_refused everyone_calls "c1" ann ringing_night forbidden refl

accept_wins_example :
    let d' = (run (accept everyone_calls "c1" bob) ringing_night).1 in
    (lookup "mode" (d'.hash (call_key "c1")) ≡ (
      if "state" == "mode"
      then some "ACTIVE"
      else lookup "mode" (ringing_night.hash (call_key "c1"))))
    × (d'.text ≡ ringing_night.text)
unfolding accept compare_and_set_hash_field hash_get_all expire answer put lookup call_key pair_key
    sort_pair
accept_wins_example =
    accept_wins everyone_calls "c1" bob ringing_night "c1" "video" "wss://sfu" "ann" "call-c1ann"
      "call-c1bob" "mode" refl

accept_starts_example :
    let (result, d') = run (accept everyone_calls "c1" bob) ringing_night in
    (result ≡ accepted "c1" "video" "wss://sfu" "ann" "call-c1ann" "call-c1bob")
    × (lookup "mode" (d'.hash (call_key "c1")) ≡ some "video")
    × (d'.text ≡ ringing_night.text)
    × (d'.ttl (call_key "c1") ≡ some active_ttl)
    × (d'.ttl (pair_key "ann" "bob") ≡ some active_ttl)
unfolding put lookup call_key pair_key sort_pair
accept_starts_example =
    accept_starts everyone_calls "c1" bob ringing_night "c1" "mode" refl refl refl refl

invite-may_invite_example :
    (run (invite everyone_calls ann "bob" "video" none "c1") quiet_night).0
    ≡ may_invite everyone_calls ann "bob" "video" none "c1" quiet_night
invite-may_invite_example = invite-may_invite everyone_calls ann "bob" "video" none "c1" quiet_night

invite_refused_example :
    (run (invite everyone_calls ann "bob" "video" none "c9") ringing_night).1 ≡ ringing_night
unfolding invite set_has set_if_absent hash_set_object expire answer put_all put has call_key
    pair_key sort_pair
invite_refused_example =
    invite_refused everyone_calls ann "bob" "video" none "c9" ringing_night busy refl

invite_starts_example :
    let d' = (run (invite everyone_calls ann "bob" "video" none "c1") quiet_night).1 in
    (d'.hash (call_key "c1") ≡ ringing_meta)
    × (d'.text (pair_key "ann" "bob") ≡ some "c1")
    × (d'.ttl (call_key "c1") ≡ some ring_ttl)
    × (d'.ttl (pair_key "ann" "bob") ≡ some ring_ttl)
unfolding invite set_has set_if_absent hash_set_object expire answer put_all put has call_key
    pair_key sort_pair
invite_starts_example =
    invite_starts everyone_calls ann "bob" "video" none "c1" quiet_night "c1" "call-c1" refl refl

glare_example :
    let d' = (run (invite everyone_calls ann "bob" "video" none "c1") quiet_night).1 in
    let again = run (invite everyone_calls ann "bob" "audio" none "c2") d' in
    let back = run (invite everyone_calls bob "ann" "audio" none "c2") d' in
    (is_invited again.0 ≡ false) × (again.1 ≡ d') × (is_invited back.0 ≡ false) × (back.1 ≡ d')
unfolding invite set_has set_if_absent hash_set_object expire answer put_all put has call_key
    pair_key sort_pair
glare_example =
    glare everyone_calls ann "bob" "video" none "c1" quiet_night "c1" "call-c1" "Bob" "audio" none
      "c2" refl refl

placed-timeout_example :
    (run
      (timeout "c1")
      (elapse 35 (run (invite everyone_calls ann "bob" "video" none "c1") quiet_night).1)).0
    ≡ some ("ann", "bob")
unfolding invite set_has set_if_absent hash_set_object expire answer put_all put has call_key
    pair_key sort_pair
placed-timeout_example =
    placed-timeout everyone_calls ann "bob" "video" none "c1" quiet_night "c1" "call-c1" 35 refl
      refl (omega arith)

placed_expires_example :
    let d' = elapse 41 (run (invite everyone_calls ann "bob" "video" none "c1") quiet_night).1 in
    ((run (timeout "c1") d').0 ≡ none) × (d'.text (pair_key "ann" "bob") ≡ none)
unfolding invite set_has set_if_absent hash_set_object expire answer put_all put has call_key
    pair_key sort_pair
placed_expires_example =
    placed_expires everyone_calls ann "bob" "video" none "c1" quiet_night "c1" "call-c1" 41 refl
      refl (omega arith)

presence_exact_example :
    (run
      (is_online "ann")
      (run_events (opens "ann" ∷ opens "ann" ∷ closes "ann" ∷ []) quiet_night)).0
    ≡ leb 1 (sockets_of "ann" (opens "ann" ∷ opens "ann" ∷ closes "ann" ∷ []) 0)
unfolding has presence_count_key
presence_exact_example =
    presence_exact "ann" (opens "ann" ∷ opens "ann" ∷ closes "ann" ∷ []) quiet_night
      (record { count = refl; online = refl })
