-- ===== src/Push/Tests.antt =====
-- Pruning at concrete subscriptions: push.service.ts, under apps/api/src/modules/push.
use vertxing.Prelude.{◌≡◌, refl, false, some, [], ◌∷◌, String, ◌==◌, if◌then◌else◌}
use vertxing.Push.{
  PushSubscription, Vapid, delivered, failed, send_call_notification, enabled, list_by_user, notify,
  delete_by_endpoint,
}
use vertxing.Push.Pruning.{subscribed, subscribed_by, send_call_notification-subscribed}

abbrev device : String → String → PushSubscription
device u e = record { user_id = u; endpoint = e; p256dh = "k"; auth = "a" }

abbrev keys : Vapid
keys = record { public_key = some "p"; private_key = some "s" }

-- Ann's second device is gone.
pruned :
    send_call_notification keys
      (λ e. if e == "e2" then failed (some 410) else delivered)
      "ann"
      (device "ann" "e1" ∷ device "ann" "e2" ∷ device "bob" "e3" ∷ [])
    ≡ device "ann" "e1" ∷ device "bob" "e3" ∷ []
unfolding send_call_notification enabled list_by_user notify delete_by_endpoint
pruned = refl

send_call_notification-subscribed_example :
    subscribed "e2" (
      send_call_notification keys
        (λ e. if e == "e2" then failed (some 410) else delivered)
        "ann"
        (device "ann" "e1" ∷ device "ann" "e2" ∷ []))
    ≡ false
unfolding subscribed subscribed_by enabled
send_call_notification-subscribed_example =
    send_call_notification-subscribed keys (λ e. if e == "e2" then failed (some 410) else delivered)
      "ann" "e2" (device "ann" "e1" ∷ device "ann" "e2" ∷ [])
