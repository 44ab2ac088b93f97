-- ===== src/Gateway/Admission.antt =====
-- Who lets a waiting guest in over the gateway, and that the guest then joins:
-- apps/api/src/modules/realtime/events.gateway.ts with meetings.service.ts.
use vertxing.Prelude.{
  String, ◌≡◌, ◌∙◌, refl, ap, Bool, true, false, not, ◌&&◌, some, List, [], ◌∷◌, arith,
  if◌then◌else◌, lookup, is_some,
}
use vertxing.Http.{Result, ok}
use vertxing.Redis.Dataset.{Dataset, answer}
use vertxing.Redis.Prog.{run}
use vertxing.Redis.Service.{hash_get_all}
use vertxing.Call.Types.{CallParty}
use vertxing.WaitingRoom.{waiting_key, waiting_participants, list_waiting}
use vertxing.WaitingRoom.Laws.{standing, Decision, lets_in, turns_away, decide}
use vertxing.Meetings.World.{World, Meeting, by_room, App, ret, lift, serve, ◌>>=◌, ◌>>◌}
use vertxing.Meetings.Service.{require_manageable, can_manage}
use vertxing.Meetings.Sequence.{is_ok, serve-lift, serve-succeeds, goes_on}
use vertxing.Meetings.Managing.{may_manage, require_manageable-may_manage}
use vertxing.Gateway.{
  SocketData, Effect, Message, to_room, let_in, turned_away, waiting_list, Reaction, user_room,
  host_room, identity_in, is_waiting, broadcast_waiting_list,
}
use vertxing.Gateway.Waiting.{on_admit, on_deny}

can_manage-may_manage :
    (r u : String) (w : World) (m : Meeting)
    → by_room r w.meetings ≡ some m
    → serve (can_manage r u) w ≡ (ok (may_manage u w m), w)
unfolding can_manage
can_manage-may_manage r u w m h =
    serve-succeeds (require_manageable r u) w
    ∙ ap (λ x. (ok (is_ok x.0), x.1)) (require_manageable-may_manage r u w m h)
    ∙ ground arith

identity_in-waiting_participants :
    (i : String) (h : List (String × String))
    → identity_in i (waiting_participants h) ≡ is_some (lookup i h)
unfolding identity_in waiting_participants lookup
identity_in-waiting_participants i [] = refl
identity_in-waiting_participants i ((j, n) ∷ h) =
    ground (arith, identity_in-waiting_participants i h)

is_waiting-standing :
    (r i : String) (w : World) → serve (is_waiting r i) w ≡ (ok ((standing r i w.redis).waiting), w)
unfolding is_waiting list_waiting hash_get_all standing answer
is_waiting-standing r i w = ap (λ b. (ok b, w)) (identity_in-waiting_participants i _)

-- What the hosts of a room are told.
unfoldable pub told_hosts : String → Dataset → List Effect
told_hosts r d =
    to_room (host_room r) (waiting_list r (waiting_participants (d.hash (waiting_key r)))) ∷ []

pub broadcast-told_hosts :
    (r : String) (w : World) → serve (broadcast_waiting_list r) w ≡ (ok (told_hosts r w.redis), w)
unfolding broadcast_waiting_list list_waiting hash_get_all told_hosts answer
broadcast-told_hosts r w = refl

-- What a host's decision about a guest does, if it is allowed: the standing changes, the guest and
-- the hosts are told.
unfoldable pub decides_for :
    Bool → SocketData → String → String → Decision → Message → World → Result Reaction × World
unfolding told_hosts user_room decide
decides_for b client r i c m w =
    let d = (run (decide r i c) w.redis).1 in
    if b
    then (ok (client, to_room (user_room i) m ∷ told_hosts r d), record w { redis = d })
    else (ok (client, []), w)

-- The common shape of `onAdmit` and `onDeny`.
abbrev moderates : SocketData → CallParty → String → String → Decision → Message → App Reaction
moderates client user r i c m = do
  may ← can_manage r user.user_id
  if not may then ret (client, []) else (do
    knocking ← is_waiting r i
    if not knocking then ret (client, []) else (do
      lift (decide r i c)
      sent ← broadcast_waiting_list r
      ret (client, to_room (user_room i) m ∷ sent)))

module _ (client : SocketData) (r i : String) (c : Decision) (x : Message) (w : World) where
  abbrev nothing : App Reaction
  nothing = ret (client, [])

  abbrev tells : App Reaction
  tells =
      lift (decide r i c)
      >> (broadcast_waiting_list r >>= λ sent. ret (client, to_room (user_room i) x ∷ sent))

  abbrev if_waiting : Bool → App Reaction
  if_waiting k = if not k then nothing else tells

  announced : serve tells w ≡ decides_for true client r i c x w
  unfolding decides_for
  announced =
      let w' : World = record w { redis = (run (decide r i c) w.redis).1 } in
      goes_on (lift (decide r i c))
        (λ _. broadcast_waiting_list r >>= λ sent. ret (client, to_room (user_room i) x ∷ sent)) w
        w' tt (serve-lift (decide r i c) w)
      ∙ goes_on (broadcast_waiting_list r) (λ sent. ret (client, to_room (user_room i) x ∷ sent)) w'
          w' (told_hosts r w'.redis) (broadcast-told_hosts r w')

  waited : (k : Bool) → serve (if_waiting k) w ≡ decides_for k client r i c x w
  unfolding decides_for
  waited false = refl
  waited true = announced

  managed :
      (b : Bool)
      → serve (if not b then nothing else (is_waiting r i >>= if_waiting)) w
        ≡ decides_for (b && (standing r i w.redis).waiting) client r i c x w
  unfolding decides_for
  managed false = refl
  managed true =
      goes_on (is_waiting r i) if_waiting w w _ (is_waiting-standing r i w)
      ∙ waited (standing r i w.redis).waiting

  moderates-decides_for :
      (user : CallParty) (m : Meeting)
      → by_room r w.meetings ≡ some m
      → serve (moderates client user r i c x) w
        ≡ decides_for
            (may_manage user.user_id w m && (standing r i w.redis).waiting)
            client
            r
            i
            c
            x
            w
  moderates-decides_for user m h =
      goes_on (can_manage r user.user_id)
        (λ may. if not may then nothing else (is_waiting r i >>= if_waiting)) w w _
        (can_manage-may_manage r user.user_id w m h)
      ∙ managed (may_manage user.user_id w m)

-- What the host answers a knock with.
pub data Verdict : Type 0 where
  admits denies : Verdict

abbrev pub verdict_decision : Verdict → Decision
verdict_decision admits = lets_in
verdict_decision denies = turns_away

abbrev pub verdict_message : Verdict → String → Message
verdict_message admits r = let_in r
verdict_message denies r = turned_away r

unfoldable pub on_verdict : Verdict → SocketData → CallParty → String → String → App Reaction
unfolding on_admit on_deny
on_verdict admits client user r i = on_admit client user r i
on_verdict denies client user r i = on_deny client user r i

-- Admitting and denying take effect exactly when the one who asks is the meeting's host or a co-host
-- and the guest is waiting: then the guest's standing changes accordingly, the guest is told, and
-- the hosts get the new list; otherwise nothing changes and nobody is told anything.
pub on_verdict-decides_for :
    (v : Verdict) (client : SocketData) (user : CallParty) (r i : String) (w : World) (m : Meeting)
    → by_room r w.meetings ≡ some m
    → serve (on_verdict v client user r i) w
      ≡ decides_for
          (may_manage user.user_id w m && (standing r i w.redis).waiting)
          client
          r
          i
          (verdict_decision v)
          (verdict_message v r)
          w
unfolding on_verdict on_admit on_deny decide
on_verdict-decides_for admits client user r i w m h =
    moderates-decides_for client r i lets_in (let_in r) w user m h
on_verdict-decides_for denies client user r i w m h =
    moderates-decides_for client r i turns_away (turned_away r) w user m h
