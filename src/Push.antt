-- ===== src/Push.antt =====
-- Web push: apps/api/src/modules/push/push.service.ts, with push.repository.ts of the same directory
-- over the table of subscriptions. What a push service answers is a parameter: delivered, or a status
-- code, if there is one. The deletions of one notification do not depend on one another, and are
-- made in the order of the rows.
pub mod Pruning
mod Tests
use vertxing.Prelude.{
  ℕ, suc, String, Bool, true, false, ◌||◌, Option, none, some, List, [], ◌∷◌, ◌==◌, ltb,
  if◌then◌else◌,
}
use vertxing.Call.Types.{is_truthy}
use Prim.Native.Nat.{compare, Ordering}

pub record PushSubscription : Type 0 where
  pub user_id : String
  pub endpoint : String
  pub p256dh : String
  pub auth : String

-- The configured VAPID keys.
pub record Vapid : Type 0 where
  pub public_key : Option String
  pub private_key : Option String

pub data Delivery : Type 0 where
  delivered : Delivery
  failed : (status_code : Option ℕ) → Delivery

-- The endpoint is unique.
unfoldable pub upsert : PushSubscription → List PushSubscription → List PushSubscription
upsert s [] = s ∷ []
upsert s (t ∷ ts) = if t.endpoint == s.endpoint then s ∷ ts else t ∷ upsert s ts

unfoldable pub delete_by_endpoint : String → List PushSubscription → List PushSubscription
delete_by_endpoint e [] = []
delete_by_endpoint e (t ∷ ts) =
    let rest = delete_by_endpoint e ts in if t.endpoint == e then rest else t ∷ rest

unfoldable pub list_by_user : String → List PushSubscription → List PushSubscription
list_by_user u [] = []
list_by_user u (t ∷ ts) = let rest = list_by_user u ts in if t.user_id == u then t ∷ rest else rest

unfoldable pub count_by_user : String → List PushSubscription → ℕ
count_by_user u [] = 0
count_by_user u (t ∷ ts) = let n = count_by_user u ts in if t.user_id == u then suc n else n

-- Both keys are set.
unfoldable pub enabled : Vapid → Bool
enabled v = if is_truthy v.public_key then is_truthy v.private_key else false

unfoldable pub get_public_key : Vapid → Option String
unfolding enabled
get_public_key v = if enabled v then v.public_key else none

unfoldable pub save_subscription : PushSubscription → List PushSubscription → List PushSubscription
unfolding upsert
save_subscription s subs = upsert s subs

unfoldable pub remove_subscription : String → List PushSubscription → List PushSubscription
unfolding delete_by_endpoint
remove_subscription endpoint subs = delete_by_endpoint endpoint subs

unfoldable pub has_subscriptions : Vapid → String → List PushSubscription → Bool
unfolding enabled count_by_user
has_subscriptions v u subs = if enabled v then ltb 0 (count_by_user u subs) else false

abbrev is : ℕ → ℕ → Bool
is a b = elim (compare a b) [ Ordering.eq ↦ true | _ ↦ false ]

-- `code === 404 || code === 410`
abbrev pub is_gone : Delivery → Bool
is_gone delivered = false
is_gone (failed none) = false
is_gone (failed (some code)) = is code 404 || is code 410

-- The notification of some rows: an endpoint that is gone is pruned.
unfoldable pub notify :
    (String → Delivery) → List PushSubscription → List PushSubscription → List PushSubscription
unfolding delete_by_endpoint
notify push [] subs = subs
notify push (s ∷ ss) subs =
    notify push ss (if is_gone (push s.endpoint) then delete_by_endpoint s.endpoint subs else subs)

unfoldable pub send_call_notification :
    Vapid → (String → Delivery) → String → List PushSubscription → List PushSubscription
unfolding enabled list_by_user notify
send_call_notification v push u subs =
    if enabled v then notify push (list_by_user u subs) subs else subs
