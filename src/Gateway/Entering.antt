-- ===== src/Gateway/Entering.antt =====
-- A guest's way into a meeting over the gateway and the REST call: onKnock and onAdmit of
-- apps/api/src/modules/realtime/events.gateway.ts, then join of meetings.service.ts.
use mathlib.Core.Path.{subst}
use vertxing.Prelude.{
  ℕ, String, ◌≡◌, ◌∙◌, refl, sym, ap, Bool, true, false, not, ◌&&◌, some, [], ◌∷◌, ◌==◌, arith,
  if◌then◌else◌, eq_refl,
}
use vertxing.Http.{forbidden, ok, throws}
use vertxing.Redis.Dataset.{Dataset}
use vertxing.Redis.Prog.{run}
use vertxing.Call.Types.{CallParty}
use vertxing.WaitingRoom.{knock}
use vertxing.WaitingRoom.Laws.{
  Standing, standing, knocks, lets_in, decide, decided, decided_of, decide-decided,
}
use vertxing.Meetings.World.{
  World, Meeting, guest, by_room, by_id, query, ret, lift, serve, ◌>>=◌, ◌>>◌,
}
use vertxing.Meetings.Service.{
  Outside as Media, is_over, find_by_room, is_waiting_room_meeting, has_waiting_room, join,
}
use vertxing.Meetings.Sequence.{serve-lift, goes_on}
use vertxing.Meetings.Joining.{refused, enters, entry, outcome, join-outcome}
use vertxing.Meetings.Entry.{Entered, outcome-Answers}
use vertxing.Meetings.Managing.{may_manage}
use vertxing.Gateway.{SocketData, to_self, let_in, broadcast_waiting_list}
use vertxing.Gateway.Waiting.{on_knock}
use vertxing.Gateway.Admission.{
  told_hosts, broadcast-told_hosts, decides_for, admits, on_verdict, on_verdict-decides_for,
}

gated :
    (r : String) (w : World) (m : Meeting)
    → by_room r w.meetings ≡ some m
    → serve (is_waiting_room_meeting r) w ≡ (ok m.waiting_room_enabled, w)
unfolding is_waiting_room_meeting find_by_room query
gated r w m h = ap (λ o. (ok (has_waiting_room o), w)) h

module _ (client : SocketData) (user : CallParty) (r : String) (w : World) where
  abbrev knocked : Dataset
  knocked = (run (decide r user.user_id (knocks user.name)) w.redis).1

  on_knock_gated :
      (m : Meeting)
      → by_room r w.meetings ≡ some m
      → m.waiting_room_enabled ≡ true
      → serve (on_knock client user r) w ≡ (
        ok (record client { knocking_room = some r }, told_hosts r knocked),
        record w { redis = knocked },
      )
  unfolding on_knock decide
  on_knock_gated m h e =
      let w' : World = record w { redis = knocked } in
      let tells =
        broadcast_waiting_list r >>= λ sent. ret (record client { knocking_room = some r }, sent) in
      let knocking = lift (knock r user.user_id user.name) in
      goes_on (is_waiting_room_meeting r)
        (λ g. if not g then ret (client, to_self (let_in r) ∷ []) else (knocking >> tells)) w w _
        (gated r w m h)
      ∙ ap
          (λ g.
            serve (if not g then ret (client, to_self (let_in r) ∷ []) else (knocking >> tells)) w)
          e
      ∙ goes_on knocking (λ _. tells) w w' tt (serve-lift (knock r user.user_id user.name) w)
      ∙ goes_on (broadcast_waiting_list r)
          (λ sent. ret (record client { knocking_room = some r }, sent)) w' w' _
          (broadcast-told_hosts r w')

  on_knock_open :
      (m : Meeting)
      → by_room r w.meetings ≡ some m
      → m.waiting_room_enabled ≡ false
      → serve (on_knock client user r) w ≡ (ok (client, to_self (let_in r) ∷ []), w)
  unfolding on_knock
  on_knock_open m h e =
      let knocking =
        lift (knock r user.user_id user.name)
        >> (broadcast_waiting_list r >>= λ sent.
            ret (record client { knocking_room = some r }, sent)) in
      goes_on (is_waiting_room_meeting r)
        (λ g. if not g then ret (client, to_self (let_in r) ∷ []) else knocking) w w _
        (gated r w m h)
      ∙ ap (λ g. serve (if not g then ret (client, to_self (let_in r) ∷ []) else knocking) w) e

and_false : (b : Bool) → (b && false) ≡ false
and_false true = refl
and_false false = refl

entry-let_in :
    (m : Meeting) (i : String) (s : Standing)
    → is_over m.status ≡ false
    → (m.host_id == i) ≡ false
    → entry m i (decided_of (i == i) lets_in s) ≡ enters guest
unfolding entry decided decided_of
entry-let_in m i s o g = ground (arith, eq_refl i)

waiting_of_knock :
    (i name : String) (s : Standing) → (decided_of (i == i) (knocks name) s).waiting ≡ true
unfolding decided decided_of
waiting_of_knock i name s = ground (arith, eq_refl i)

-- After an admission that is allowed, the guest enters.
admitted-join :
    (out : Media) (client : SocketData) (host guest_user : CallParty) (r name : String) (now : ℕ)
    (w : World) (m : Meeting)
    → by_room r w.meetings ≡ some m
    → by_id m.id w.meetings ≡ some m
    → out.display_name guest_user.user_id ≡ some name
    → may_manage host.user_id w m ≡ true
    → (standing r guest_user.user_id w.redis).waiting ≡ true
    → is_over m.status ≡ false
    → (m.host_id == guest_user.user_id) ≡ false
    → let w' = (serve (on_verdict admits client host r guest_user.user_id) w).1 in
      Entered out r guest_user.user_id name guest now m
        (serve (join out r guest_user.user_id now) w')
unfolding decides_for
admitted-join out client host guest_user r name now w m h hi hn a k o g =
    let i = guest_user.user_id in
    let d = (run (decide r i lets_in) w.redis).1 in
    let w2 : World = record w { redis = d } in
    let e =
      on_verdict-decides_for admits client host r i w m h
      ∙ ap (λ b. decides_for (b && (standing r i w.redis).waiting) client r i lets_in (let_in r) w)
          a
      ∙ ap (λ b. decides_for b client r i lets_in (let_in r) w) k in
    let joined =
      join-outcome out r i now w2 m h
      ∙ ap (λ s. outcome out r i now m (entry m i s) w2) (decide-decided r i i lets_in w.redis)
      ∙ ap (λ n. outcome out r i now m n w2) (entry-let_in m i (standing r i w.redis) o g) in
    subst (λ w'. Entered out r i name guest now m (serve (join out r i now) w'))
      (sym (ap (λ x. x.1) e))
      (subst (Entered out r i name guest now m) (sym joined)
        (outcome-Answers out r i name now m w2 (enters guest) hn hi))

-- In a meeting with a waiting room, a guest with an account who knocks and whom the host or a co-host
-- then admits enters on joining, also one who was removed before: the guest is answered with a token
-- of the room for itself, as a guest, is a participant and present, and the meeting is live.
pub knock-admit-join :
    (out : Media) (guest_socket host_socket : SocketData) (host guest_user : CallParty)
    (r name : String) (now : ℕ) (w : World) (m : Meeting)
    → by_room r w.meetings ≡ some m
    → by_id m.id w.meetings ≡ some m
    → out.display_name guest_user.user_id ≡ some name
    → m.waiting_room_enabled ≡ true
    → may_manage host.user_id w m ≡ true
    → is_over m.status ≡ false
    → (m.host_id == guest_user.user_id) ≡ false
    → let w1 = (serve (on_knock guest_socket guest_user r) w).1 in
      let w2 = (serve (on_verdict admits host_socket host r guest_user.user_id) w1).1 in
      Entered out r guest_user.user_id name guest now m
        (serve (join out r guest_user.user_id now) w2)
unfolding may_manage
knock-admit-join out gs hs host guest_user r name now w m h hi hn e a o g =
    let i = guest_user.user_id in
    let w1 : World = record w { redis = knocked gs guest_user r w } in
    subst
      (λ w1.
        let w2 = (serve (on_verdict admits hs host r i) w1).1 in
        Entered out r i name guest now m (serve (join out r i now) w2))
      (sym (ap (λ x. x.1) (on_knock_gated gs guest_user r w m h e)))
      (admitted-join out hs host guest_user r name now w1 m h hi hn a
        (ap (λ s. s.waiting) (decide-decided r i i (knocks guest_user.name) w.redis)
          ∙ waiting_of_knock i guest_user.name (standing r i w.redis))
        o g)

entry-denied :
    (m : Meeting) (i : String) (s : Standing)
    → is_over m.status ≡ false
    → (m.host_id == i) ≡ false
    → s.denied ≡ true
    → entry m i s ≡ refused (forbidden "You were removed from this meeting")
unfolding entry
entry-denied m i s o g k = ground arith

-- In a meeting without a waiting room, a guest who was removed and does not wait stays out: a knock
-- is answered at once by an admission that is recorded nowhere, an admission by any host then does
-- nothing, and joining is refused.
pub open_knock-refused :
    (out : Media) (guest_socket host_socket : SocketData) (host guest_user : CallParty) (r : String)
    (now : ℕ) (w : World) (m : Meeting)
    → by_room r w.meetings ≡ some m
    → m.waiting_room_enabled ≡ false
    → (standing r guest_user.user_id w.redis).waiting ≡ false
    → (standing r guest_user.user_id w.redis).denied ≡ true
    → is_over m.status ≡ false
    → (m.host_id == guest_user.user_id) ≡ false
    → (serve (on_knock guest_socket guest_user r) w
        ≡ (ok (guest_socket, to_self (let_in r) ∷ []), w))
      × (serve (on_verdict admits host_socket host r guest_user.user_id) w
          ≡ (ok (host_socket, []), w))
      × (serve (join out r guest_user.user_id now) w
          ≡ (throws (forbidden "You were removed from this meeting"), w))
unfolding decides_for outcome
open_knock-refused out gs hs host guest_user r now w m h e k d o g =
    let i = guest_user.user_id in
    (
      on_knock_open gs guest_user r w m h e,
      on_verdict-decides_for admits hs host r i w m h
          ∙ ap (λ b. decides_for (may_manage host.user_id w m && b) hs r i lets_in (let_in r) w) k
          ∙ ap (λ b. decides_for b hs r i lets_in (let_in r) w)
              (and_false (may_manage host.user_id w m)),
      join-outcome out r i now w m h
          ∙ ap (λ n. outcome out r i now m n w) (entry-denied m i (standing r i w.redis) o g d),
    )
