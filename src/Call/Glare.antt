-- ===== src/Call/Glare.antt =====
-- How calls start: `invite` and its lock on the pair, of
-- apps/api/src/modules/realtime/call.service.ts.
use Prim.Native.String.{◌++◌ as cat}
use mathlib.Core.Option.{get_or}
use vertxing.Prelude.{
  ℕ, ◌≤◌, ◌<◌, String, ◌≡◌, refl, Bool, true, false, not, ◌||◌, Option, none, some, List, [], ◌∷◌,
  arith, ◌==◌, if◌then◌else◌, lookup, eq_refl, ne-eq_false,
}
use vertxing.Keys.{sort_pair_comm}
use vertxing.Redis.Dataset.{Dataset, elapse, answer, has, exists, put, put_all}
use vertxing.Redis.Prog.{run}
use vertxing.Redis.Service.{
  compare_and_set_hash_field, delete, delete_if_equals, hash_get_all, expire, set_has,
  set_if_absent, hash_set_object,
}
use vertxing.Call.Types.{
  CallParty, CallFailureReason, InviteOutcome, invited, not_invited, self, unauthorized, offline,
  unavailable, busy, Services, ring_ttl, call_key, pair_key, online_key,
}
use vertxing.Call.Placing.{invite}
use vertxing.Call.Ending.{timeout}
use vertxing.Call.Endings.{call_key-ne-pair_key}

abbrev pub is_invited : InviteOutcome → Bool
is_invited (invited id name) = true
is_invited (not_invited r) = false

pub pair_key_comm : (a b : String) → pair_key a b ≡ pair_key b a
unfolding pair_key
pair_key_comm a b = rw (sort_pair_comm a b)

module _ (services : Services) (caller : CallParty) (callee mode : String) (room : Option String)
    (c : String) (d : Dataset) where
  open services use {can_start_calls, accepts_calls, has_subscriptions}

  -- The answer that the callee's presence and settings and the lock on the pair call for.
  abbrev pub may_invite : InviteOutcome
  may_invite =
      if callee == caller.user_id
      then not_invited self
      else if not (can_start_calls caller.user_id)
      then not_invited unauthorized
      else if not (has callee (d.members online_key) || has_subscriptions callee)
      then not_invited offline
      else if not (accepts_calls callee)
      then not_invited unavailable
      else if exists (pair_key caller.user_id callee) d
      then not_invited busy
      else invited c (get_or room (cat "call-" c))

  -- `invite` is answered with the first refusal that applies: calling oneself, a caller without the
  -- right to call, a callee who is neither online nor has a device to wake, a callee who takes no
  -- calls, a pair that is locked; and with the call's id and room when none applies.
  pub invite-may_invite : (run (invite services caller callee mode room c) d).0 ≡ may_invite
  unfolding invite set_has set_if_absent hash_set_object expire answer
  invite-may_invite = ground arith

  -- A refused invite changes nothing in Redis.
  pub invite_refused :
      (r : CallFailureReason)
      → (run (invite services caller callee mode room c) d).0 ≡ not_invited r
      → (run (invite services caller callee mode room c) d).1 ≡ d
  unfolding invite set_has set_if_absent hash_set_object expire answer
  invite_refused r h = ground arith

module _ (services : Services) (caller : CallParty) (callee mode : String) (room : Option String)
    (c : String) (d : Dataset) where
  invite_locked :
      (x : String)
      → d.text (pair_key caller.user_id callee) ≡ some x
      → (is_invited (run (invite services caller callee mode room c) d).0 ≡ false)
        × ((run (invite services caller callee mode room c) d).1 ≡ d)
  unfolding invite set_has set_if_absent hash_set_object expire answer
  invite_locked x h = (ground arith, ground arith)

  -- An invite that succeeds, of a call id that is new, writes the ringing call with both parties,
  -- takes the lock of the pair for it, and both live as long as the call may ring.
  pub invite_starts :
      (id name : String)
      → d.hash (call_key c) ≡ []
      → (run (invite services caller callee mode room c) d).0 ≡ invited id name
      → let d' = (run (invite services caller callee mode room c) d).1 in
        (d'.hash (call_key c)
          ≡ ("state", "RINGING")
            ∷ ("callerId", caller.user_id)
            ∷ ("callerName", caller.name)
            ∷ ("calleeId", callee)
            ∷ ("mode", mode)
            ∷ ("roomName", name)
            ∷ [])
        × (d'.text (pair_key caller.user_id callee) ≡ some c)
        × (d'.ttl (call_key c) ≡ some ring_ttl)
        × (d'.ttl (pair_key caller.user_id callee) ≡ some ring_ttl)
  unfolding invite set_has set_if_absent hash_set_object expire answer put_all put
  invite_starts id name f h =
      let key = call_key c in
      let lock = pair_key caller.user_id callee in
      let sep : (key == lock) ≡ false =
        ne-eq_false _ _ (call_key-ne-pair_key c caller.user_id callee) in
      (
        ground (arith, eq_refl key, eq_refl lock, sep),
        ground (arith, eq_refl key, eq_refl lock, sep),
        ground (arith, eq_refl key, eq_refl lock, sep),
        ground (arith, eq_refl key, eq_refl lock, sep),
      )

module _ (services : Services) (caller : CallParty) (callee mode : String) (room : Option String)
    (c : String) (d : Dataset) where
  -- Glare: once an invite of a new call id has succeeded, another invite between the two, in either
  -- direction, is refused and changes nothing.
  pub glare :
      (id name : String) (callee_name mode' : String) (room' : Option String) (c' : String)
      → d.hash (call_key c) ≡ []
      → (run (invite services caller callee mode room c) d).0 ≡ invited id name
      → let d' = (run (invite services caller callee mode room c) d).1 in
        let again = run (invite services caller callee mode' room' c') d' in
        let back =
          run
            (invite services
              (record { user_id = callee; name = callee_name })
              caller.user_id
              mode'
              room'
              c')
            d' in
        (is_invited again.0 ≡ false) × (again.1 ≡ d') × (is_invited back.0 ≡ false) × (back.1 ≡ d')
  glare id name callee_name mode' room' c' f h =
      let d' = (run (invite services caller callee mode room c) d).1 in
      let back : CallParty = record { user_id = callee; name = callee_name } in
      let held = (invite_starts services caller callee mode room c d id name f h).1 in
      let one = invite_locked services caller callee mode' room' c' d' c held in
      let two =
        invite_locked services back caller.user_id mode' room' c' d' c
          (rw (pair_key_comm callee caller.user_id) held) in
      (one.0, one.1, two.0, two.1)

module _ (a b : String) (c : String) (n : ℕ) (rest : List (String × String)) (d : Dataset)
    (meta : d.hash (call_key c) ≡ ("state", "RINGING") ∷ ("callerId", a) ∷ rest)
    (callee : lookup "calleeId" rest ≡ some b) (life : d.ttl (call_key c) ≡ some ring_ttl) where
  timeout_in_time : n < ring_ttl → (run (timeout c) (elapse n d)).0 ≡ some (a, b)
  unfolding timeout elapse compare_and_set_hash_field delete delete_if_equals hash_get_all answer
      lookup
  timeout_in_time m = ground (arith)

  timeout_late : ring_ttl ≤ n → (run (timeout c) (elapse n d)).0 ≡ none
  unfolding timeout elapse compare_and_set_hash_field delete delete_if_equals hash_get_all answer
      lookup
  timeout_late m = ground (arith)

elapse-text :
    (k : String) (n t : ℕ) (d : Dataset) → d.ttl k ≡ some t → t ≤ n → (elapse n d).text k ≡ none
unfolding elapse
elapse-text k n t d h m = ground arith

module _ (services : Services) (caller : CallParty) (callee mode : String) (room : Option String)
    (c : String) (d : Dataset) where
  -- A call that was placed, with a new id, still rings at any time before 40 seconds have passed, so
  -- also when the server's timer of 35 seconds fires: the timeout ends it for both parties.
  pub placed-timeout :
      (id name : String) (n : ℕ)
      → d.hash (call_key c) ≡ []
      → (run (invite services caller callee mode room c) d).0 ≡ invited id name
      → n < ring_ttl
      → (run (timeout c) (elapse n (run (invite services caller callee mode room c) d).1)).0
        ≡ some (caller.user_id, callee)
  unfolding lookup
  placed-timeout id name n f h =
      let (meta, lock, life, lock_life) =
        invite_starts services caller callee mode room c d id name f h in
      timeout_in_time caller.user_id callee c n _
        (run (invite services caller callee mode room c) d).1 meta refl life

  -- From 40 seconds on nothing is left of a call that was placed, with a new id, and that nobody
  -- answered: a timeout finds no call, and the pair is free.
  pub placed_expires :
      (id name : String) (n : ℕ)
      → d.hash (call_key c) ≡ []
      → (run (invite services caller callee mode room c) d).0 ≡ invited id name
      → ring_ttl ≤ n
      → let d' = elapse n (run (invite services caller callee mode room c) d).1 in
        ((run (timeout c) d').0 ≡ none) × (d'.text (pair_key caller.user_id callee) ≡ none)
  unfolding lookup
  placed_expires id name n f h late =
      let (meta, lock, life, lock_life) =
        invite_starts services caller callee mode room c d id name f h in
      let d' = (run (invite services caller callee mode room c) d).1 in
      (
        timeout_late caller.user_id callee c n _ d' meta refl life late,
        elapse-text (pair_key caller.user_id callee) n ring_ttl d' lock_life late,
      )
