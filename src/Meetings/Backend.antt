-- ===== src/Meetings/Backend.antt =====
-- PostgreSQL and Redis as the meetings meet them: something that answers queries and commands. What
-- is proved of the meetings over a `World` holds of every such backend.
use mathlib.Core.Path.{subst₂}
use vertxing.Prelude.{◌≡◌, refl, ap}
use vertxing.Http.{Result, ok, throws}
use vertxing.Redis.Dataset.{Command, Reply, answer}
use vertxing.Meetings.World.{World, Query, Rows, query, App, ret, throw, ask, tell, serve}

abbrev answer_in : (m : Command) → World → Reply m × World
answer_in m w = let (r, d) = answer m w.redis in (r, record w { redis = d })

pub record Backend : Type 1 where
  pub Store : Type 0
  pub look : Store → World
  pub rows : (q : Query) → Store → Rows q × Store
  pub reply : (m : Command) → Store → Reply m × Store
  pub rows_value : (q : Query) (s : Store) → (rows q s).0 ≡ (query q (look s)).0
  pub rows_look : (q : Query) (s : Store) → look (rows q s).1 ≡ (query q (look s)).1
  pub reply_value : (m : Command) (s : Store) → (reply m s).0 ≡ (answer_in m (look s)).0
  pub reply_look : (m : Command) (s : Store) → look (reply m s).1 ≡ (answer_in m (look s)).1

module _ (b : Backend) where
  open b use {Store, look, rows, reply, rows_value, rows_look, reply_value, reply_look}

  pub serve_on {ℓ} : {A : Type ℓ} → App A → Store → Result A × Store
  serve_on (ret a) s = (ok a, s)
  serve_on (throw e) s = (throws e, s)
  serve_on (ask q k) s = let (r, s') = rows q s in serve_on (k r) s'
  serve_on (tell m k) s = let (r, s') = reply m s in serve_on (k r) s'

  abbrev Agrees {ℓ} : {A : Type ℓ} → Result A × Store → Result A × World → Type ℓ
  Agrees x y = (x.0 ≡ y.0) × (look x.1 ≡ y.1)

  Agrees-next {ℓ} :
      {A : Type ℓ} (p q : App A) (s : Store) (w : World)
      → p ≡ q
      → look s ≡ w
      → Agrees (serve_on p s) (serve p (look s))
      → Agrees (serve_on p s) (serve q w)
  Agrees-next p q s w e h a = subst₂ (λ q w. Agrees (serve_on p s) (serve q w)) e h a

  -- On any such backend the code has the result that `serve` has, exceptions included, and leaves the
  -- world that `serve` leaves.
  pub serve_on-refines {ℓ} :
      {A : Type ℓ} (p : App A) (s : Store)
      → ((serve_on p s).0 ≡ (serve p (look s)).0) × (look (serve_on p s).1 ≡ (serve p (look s)).1)
  unfolding serve_on
  serve_on-refines (ret a) s = (refl, refl)
  serve_on-refines (throw e) s = (refl, refl)
  serve_on-refines (ask q k) s =
      let (r, s') = rows q s in
      Agrees-next (k r) (k (query q (look s)).0) s' (query q (look s)).1 (ap k (rows_value q s))
        (rows_look q s) (serve_on-refines (k r) s')
  serve_on-refines (tell m k) s =
      let (r, s') = reply m s in
      Agrees-next (k r) (k (answer_in m (look s)).0) s' (answer_in m (look s)).1
        (ap k (reply_value m s)) (reply_look m s) (serve_on-refines (k r) s')

-- The simplest such backend.
abbrev pub in_memory_world : Backend
in_memory_world = record {
  Store = World;
  look = λ w. w;
  rows = query;
  reply = answer_in;
  rows_value = λ q s. refl;
  rows_look = λ q s. refl;
  reply_value = λ m s. refl;
  reply_look = λ m s. refl;
}
