-- ===== src/Call/PresenceLaws.antt =====
-- Presence is ref-counted: `markOnline` and `markOffline` of
-- apps/api/src/modules/realtime/call.service.ts.
use mathlib.Core.Option.{get_or}
use vertxing.Prelude.{
  ℕ, zero, suc, ◌-◌, String, ◌≡◌, ◌≢◌, refl, sym, Bool, true, false, List, [], ◌∷◌, arith, ◌==◌,
  if◌then◌else◌, eq_refl, eq_sym, eq_iff, ne-eq_false, Bool-cases, inl, inr, leb,
}
use text.Mathlib.TextLemmas.{append_cancel_left}
use vertxing.Prelude.Int.{ℤ, pos, is_nonpositive}
use vertxing.Keys.{tag_ne}
use vertxing.Redis.Dataset.{Dataset, decr, answer, has}
use vertxing.Redis.Laws.{has-remove}
use vertxing.Redis.Prog.{Prog, ret, run, ◌>>◌}
use vertxing.Redis.Service.{delete, add_to_set, remove_from_set, set_has, increment, decrement}
use vertxing.Call.Types.{online_key, presence_count_key}
use vertxing.Call.Presence.{mark_online, mark_offline, is_online}

-- The counter's key is not the key of the set.
count_key-online_key : (u : String) → (presence_count_key u == online_key) ≡ false
unfolding presence_count_key
count_key-online_key u =
    ne-eq_false _ _ (λ e. tag_ne "presence:" "presencec" "ount:" "online" u refl refl (sym e))

-- A user with n open sockets.
pub record HasSockets (u : String) (n : ℕ) (d : Dataset) : Type 0 where
  pub count : get_or (d.counter (presence_count_key u)) (pos 0) ≡ pos n
  pub online : has u (d.members online_key) ≡ leb 1 n

abbrev pub socket_count : String → Dataset → ℤ
socket_count u d = get_or (d.counter (presence_count_key u)) (pos 0)

-- One socket more: the count rises and the user is online.
mark_online-HasSockets :
    (u : String) (n : ℕ) (d : Dataset)
    → HasSockets u n d
    → HasSockets u (suc n) (run (mark_online u) d).1
unfolding mark_online add_to_set increment answer has
mark_online-HasSockets u zero d h = record {
  count = ground (
    arith,
    eq_refl (presence_count_key u),
    eq_refl online_key,
    count_key-online_key u,
    eq_sym online_key (presence_count_key u),
  );
  online = ground (
    arith,
    eq_refl (presence_count_key u),
    eq_refl online_key,
    count_key-online_key u,
    eq_sym online_key (presence_count_key u),
    eq_refl u,
  );
}
mark_online-HasSockets u (suc n) d h = record {
  count = ground (
    arith,
    eq_refl (presence_count_key u),
    eq_refl online_key,
    count_key-online_key u,
    eq_sym online_key (presence_count_key u),
  );
  online = ground (
    arith,
    eq_refl (presence_count_key u),
    eq_refl online_key,
    count_key-online_key u,
    eq_sym online_key (presence_count_key u),
    eq_refl u,
  );
}

-- One socket less; a close too many leaves the count at zero.
mark_offline-HasSockets :
    (u : String) (n : ℕ) (d : Dataset)
    → HasSockets u n d
    → HasSockets u (n - 1) (run (mark_offline u) d).1
unfolding mark_offline remove_from_set delete decrement answer has
mark_offline-HasSockets u zero d h = record {
  count = ground (
    arith,
    eq_refl (presence_count_key u),
    eq_refl online_key,
    count_key-online_key u,
    eq_sym online_key (presence_count_key u),
  );
  online = ground (
    arith,
    eq_refl (presence_count_key u),
    eq_refl online_key,
    count_key-online_key u,
    eq_sym online_key (presence_count_key u),
    has-remove u u (d.members online_key),
    eq_refl u,
  );
}
mark_offline-HasSockets u (suc zero) d h = record {
  count = ground (
    arith,
    eq_refl (presence_count_key u),
    eq_refl online_key,
    count_key-online_key u,
    eq_sym online_key (presence_count_key u),
  );
  online = ground (
    arith,
    eq_refl (presence_count_key u),
    eq_refl online_key,
    count_key-online_key u,
    eq_sym online_key (presence_count_key u),
    has-remove u u (d.members online_key),
    eq_refl u,
  );
}
mark_offline-HasSockets u (suc (suc n)) d h = record {
  count = ground (
    arith,
    eq_refl (presence_count_key u),
    eq_refl online_key,
    count_key-online_key u,
    eq_sym online_key (presence_count_key u),
  );
  online = ground (
    arith,
    eq_refl (presence_count_key u),
    eq_refl online_key,
    count_key-online_key u,
    eq_sym online_key (presence_count_key u),
    has-remove u u (d.members online_key),
    eq_refl u,
  );
}

count_key-injective :
    (u v : String) → v ≢ u → (presence_count_key v == presence_count_key u) ≡ false
unfolding presence_count_key
count_key-injective u v n = ne-eq_false _ _ (λ e. n (append_cancel_left "presencecount:" v u e))

-- Another user's sockets.
mark_online_other :
    (u v : String) (n : ℕ) (d : Dataset)
    → v ≢ u
    → HasSockets u n d
    → HasSockets u n (run (mark_online v) d).1
unfolding mark_online add_to_set increment answer has
mark_online_other u v n d other h = record {
  count = ground (
    arith,
    count_key-injective u v other,
    count_key-online_key u,
    eq_sym online_key (presence_count_key u),
  );
  online = ground (
    arith,
    eq_refl online_key,
    ne-eq_false v u other,
    count_key-online_key v,
    eq_sym online_key (presence_count_key v),
  );
}

go_offline_other :
    (u v : String) (n : ℕ) (d : Dataset) (b : Bool)
    → v ≢ u
    → HasSockets u n d
    → HasSockets u n
        (run
          (if b then (do remove_from_set online_key v; delete (presence_count_key v)) else ret tt)
          d).1
unfolding remove_from_set delete answer has
go_offline_other u v n d true other h = record {
  count = ground (
    arith,
    count_key-injective u v other,
    count_key-online_key u,
    eq_sym online_key (presence_count_key u),
  );
  online = ground (
    arith,
    eq_refl online_key,
    has-remove v u (d.members online_key),
    ne-eq_false v u other,
    count_key-online_key v,
    eq_sym online_key (presence_count_key v),
  );
}
go_offline_other u v n d false other h = h

mark_offline_other :
    (u v : String) (n : ℕ) (d : Dataset)
    → v ≢ u
    → HasSockets u n d
    → HasSockets u n (run (mark_offline v) d).1
unfolding mark_offline decrement answer
mark_offline_other u v n d other h =
    let (k, d1) = answer (decr (presence_count_key v)) d in
    go_offline_other u v n d1 (is_nonpositive k) other
      (record { count = ground (arith, count_key-injective u v other); online = h.online })

-- Sockets open and close.
pub data SocketEvent : Type 0 where
  opens closes : String → SocketEvent

abbrev handle : SocketEvent → Prog (Unit {0})
handle (opens u) = mark_online u
handle (closes u) = mark_offline u

unfoldable pub run_events : List SocketEvent → Dataset → Dataset
run_events [] d = d
run_events (e ∷ es) d = run_events es (run (handle e) d).1

-- The number of sockets of one user; a close with none open counts for nothing.
unfoldable pub sockets_of : String → List SocketEvent → ℕ → ℕ
sockets_of u [] n = n
sockets_of u (opens v ∷ es) n = sockets_of u es (if v == u then suc n else n)
sockets_of u (closes v ∷ es) n = sockets_of u es (if v == u then n - 1 else n)

handle-opens :
    (u v : String) (n : ℕ) (d : Dataset)
    → HasSockets u n d
    → HasSockets u (if v == u then suc n else n) (run (mark_online v) d).1
handle-opens u v n d h = elim (Bool-cases (v == u)) [
  | inl e ↦ rw (e, (eq_iff v u).0 e) (mark_online-HasSockets u n d h)
  | inr e ↦ rw e (mark_online_other u v n d (λ p. cc (e, (eq_iff v u).1 p)) h)
]

handle-closes :
    (u v : String) (n : ℕ) (d : Dataset)
    → HasSockets u n d
    → HasSockets u (if v == u then n - 1 else n) (run (mark_offline v) d).1
handle-closes u v n d h = elim (Bool-cases (v == u)) [
  | inl e ↦ rw (e, (eq_iff v u).0 e) (mark_offline-HasSockets u n d h)
  | inr e ↦ rw e (mark_offline_other u v n d (λ p. cc (e, (eq_iff v u).1 p)) h)
]

run_events-HasSockets :
    (u : String) (es : List SocketEvent) (n : ℕ) (d : Dataset)
    → HasSockets u n d
    → HasSockets u (sockets_of u es n) (run_events es d)
unfolding run_events sockets_of
run_events-HasSockets u [] n d h = h
run_events-HasSockets u (opens v ∷ es) n d h =
    run_events-HasSockets u es _ _ (handle-opens u v n d h)
run_events-HasSockets u (closes v ∷ es) n d h =
    run_events-HasSockets u es _ _ (handle-closes u v n d h)

-- From a state with no sockets, after any sockets of any users have opened and closed, a user is
-- reported online exactly when one of the user's sockets is open.
pub presence_exact :
    (u : String) (es : List SocketEvent) (d : Dataset)
    → HasSockets u 0 d
    → (run (is_online u) (run_events es d)).0 ≡ leb 1 (sockets_of u es 0)
unfolding is_online set_has answer
presence_exact u es d h = let s = run_events-HasSockets u es 0 d h in ground arith
