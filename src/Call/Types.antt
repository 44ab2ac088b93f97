-- ===== src/Call/Types.antt =====
-- The wire types of packages/shared/src/types/call.types.ts, the Redis keys of
-- apps/api/src/modules/realtime/call.service.ts, and how it reads a call back. What the service
-- asks of the other services and of LiveKit is a parameter, `Services`.
use Prim.Native.String.{◌++◌ as cat}
use mathlib.Core.Option.{get_or}
use vertxing.Prelude.{
  ℕ, ◌*◌, String, Bool, true, false, Option, none, some, List, ◌==◌, if◌then◌else◌, lookup,
}
use vertxing.Keys.{sort_pair}
use vertxing.Redis.Prog.{Prog, ret, ◌>>=◌}
use vertxing.Redis.Service.{hash_get_all}

pub data CallEndReason : Type 0 where
  declined cancelled missed ended : CallEndReason

pub data CallFailureReason : Type 0 where
  offline busy unavailable unauthorized self gone forbidden error : CallFailureReason

pub record CallParty : Type 0 where
  pub user_id : String
  pub name : String

pub data InviteOutcome : Type 0 where
  invited : (call_id room_name : String) → InviteOutcome
  not_invited : CallFailureReason → InviteOutcome

pub data AcceptOutcome : Type 0 where
  accepted : (call_id mode url caller_id caller_token callee_token : String) → AcceptOutcome
  not_accepted : CallFailureReason → AcceptOutcome

pub record EndResult : Type 0 where
  pub call_id : String
  pub other_id : String
  pub reason : CallEndReason

-- A hash as Redis returns it.
abbrev pub CallMeta : Type 0
CallMeta = List (String × String)

pub data RingingRole : Type 0 where
  caller_role callee_role : RingingRole

-- What `CallService` asks of UsersService, PushService and MediaService.
pub record Services : Type 0 where
  pub can_start_calls : String → Bool
  pub accepts_calls : String → Bool
  pub has_subscriptions : String → Bool
  pub server_url : String
  -- `createAccessToken` with the role GUEST, of a room, an identity and a display name.
  pub create_access_token : String → String → String → String

abbrev pub ring_timeout_ms : ℕ
ring_timeout_ms = 35000

abbrev pub ring_ttl : ℕ
ring_ttl = 40

abbrev pub active_ttl : ℕ
active_ttl = 60 * 60 * 4

abbrev pub online_key : String
online_key = "presence:online"

unfoldable pub presence_count_key : String → String
presence_count_key user_id = cat "presencecount:" user_id

unfoldable pub call_key : String → String
call_key call_id = cat "call:" call_id

-- Order-independent, so that A→B and B→A contend for the same lock.
unfoldable pub pair_key : String → String → String
pair_key a b = let (x, y) = sort_pair a b in cat "calllock:" (cat x (cat ":" y))

-- The text of a field; JavaScript prints a missing one so. A comparison with it agrees with
-- JavaScript's for every id but the text "undefined", which no UUID is.
abbrev pub field : String → CallMeta → String
field f meta = get_or (lookup f meta) "undefined"

abbrev pub is_truthy : Option String → Bool
is_truthy none = false
is_truthy (some s) = if s == "" then false else true

unfoldable pub get_meta : String → Prog (Option CallMeta)
get_meta call_id = do
  meta ← hash_get_all (call_key call_id)
  ret (if is_truthy (lookup "state" meta) then some meta else none)
