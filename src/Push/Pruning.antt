-- ===== src/Push/Pruning.antt =====
-- What a notification prunes: push.service.ts, under apps/api/src/modules/push.
use vertxing.Prelude.{
  String, ◌≡◌, ◌∙◌, refl, ap, Bool, true, false, not, ◌&&◌, ◌||◌, List, [], ◌∷◌, ◌==◌, arith,
  eq_iff, if◌then◌else◌,
}
use vertxing.Push.{
  PushSubscription, Vapid, Delivery, delete_by_endpoint, list_by_user, enabled, is_gone, notify,
  send_call_notification,
}

-- Whether an endpoint is subscribed, and whether by a user.
unfoldable pub subscribed : String → List PushSubscription → Bool
subscribed e [] = false
subscribed e (t ∷ ts) = t.endpoint == e || subscribed e ts

unfoldable pub subscribed_by : String → String → List PushSubscription → Bool
subscribed_by u e [] = false
subscribed_by u e (t ∷ ts) = t.user_id == u && t.endpoint == e || subscribed_by u e ts

subscribed-delete_by_endpoint :
    (d e : String) (ts : List PushSubscription)
    → subscribed e (delete_by_endpoint d ts) ≡ (not (d == e) && subscribed e ts)
unfolding subscribed delete_by_endpoint
subscribed-delete_by_endpoint d e [] = ground arith
subscribed-delete_by_endpoint d e (t ∷ ts) = ground (
  arith,
  subscribed-delete_by_endpoint d e ts,
  eq_iff d e,
  eq_iff t.endpoint d,
  eq_iff t.endpoint e,
)

subscribed-pruned :
    (b : Bool) (d e : String) (ts : List PushSubscription)
    → subscribed e (if b then delete_by_endpoint d ts else ts)
      ≡ (if b then not (d == e) && subscribed e ts else subscribed e ts)
subscribed-pruned true d e ts = subscribed-delete_by_endpoint d e ts
subscribed-pruned false d e ts = refl

same_gone :
    (push : String → Delivery) (d e : String)
    → (d == e) ≡ true
    → is_gone (push d) ≡ is_gone (push e)
same_gone push d e h = ap (λ x. is_gone (push x)) ((eq_iff d e).0 h)

agree :
    (b g q x y : Bool)
    → (q ≡ true → b ≡ g)
    → ((if b then not q && x else x) && not (y && g)) ≡ (x && not ((q || y) && g))
agree b g q x y h = ground arith

subscribed-notify :
    (push : String → Delivery) (e : String) (ss ts : List PushSubscription)
    → subscribed e (notify push ss ts)
      ≡ (subscribed e ts && not (subscribed e ss && is_gone (push e)))
unfolding notify subscribed
subscribed-notify push e [] ts = ground arith
subscribed-notify push e (s ∷ ss) ts =
    let b = is_gone (push s.endpoint) in
    subscribed-notify push e ss (if b then delete_by_endpoint s.endpoint ts else ts)
    ∙ ap (λ x. x && not (subscribed e ss && is_gone (push e))) (subscribed-pruned b s.endpoint e ts)
    ∙ agree b (is_gone (push e)) (s.endpoint == e) (subscribed e ts) (subscribed e ss)
        (same_gone push s.endpoint e)

subscribed-list_by_user :
    (u e : String) (ts : List PushSubscription)
    → subscribed e (list_by_user u ts) ≡ subscribed_by u e ts
unfolding subscribed list_by_user subscribed_by
subscribed-list_by_user u e [] = refl
subscribed-list_by_user u e (t ∷ ts) = ground (arith, subscribed-list_by_user u e ts)

notified :
    (b : Bool) (push : String → Delivery) (u e : String) (subs : List PushSubscription)
    → subscribed e (if b then notify push (list_by_user u subs) subs else subs)
      ≡ (subscribed e subs && not (b && subscribed_by u e subs && is_gone (push e)))
notified false push u e subs = ground arith
notified true push u e subs =
    subscribed-notify push e (list_by_user u subs) subs
    ∙ ap (λ b. subscribed e subs && not (b && is_gone (push e))) (subscribed-list_by_user u e subs)

-- After a call was pushed to a user, an endpoint is subscribed exactly when it was and is not one of
-- the user's that the push service says is gone; with push switched off nothing changes.
pub send_call_notification-subscribed :
    (v : Vapid) (push : String → Delivery) (u e : String) (subs : List PushSubscription)
    → subscribed e (send_call_notification v push u subs)
      ≡ (subscribed e subs && not (enabled v && subscribed_by u e subs && is_gone (push e)))
unfolding send_call_notification
send_call_notification-subscribed v push u e subs = notified (enabled v) push u e subs
