-- ===== src/Database/Client.antt =====
-- The database as the program meets it: something that answers queries. What is proved of the
-- services over `Tables` holds of every database that answers as documented.
use mathlib.Core.Path.{subst₂}
use vertxing.Prelude.{◌≡◌, refl, ap}
use vertxing.Http.{Result, ok, throws}
use vertxing.Database.Tables.{Tables, Query, Rows, query}
use vertxing.Database.Query.{Db, ret, throw, ask, run}

pub record Database : Type 1 where
  pub Store : Type 0
  -- What the tables hold now.
  pub tables : Store → Tables
  pub execute : (q : Query) → Store → Rows q × Store
  pub execute_rows : (q : Query) (s : Store) → (execute q s).0 ≡ (query q (tables s)).0
  pub execute_tables : (q : Query) (s : Store) → tables (execute q s).1 ≡ (query q (tables s)).1

module _ (c : Database) where
  open c use {Store, tables, execute, execute_rows, execute_tables}

  pub serve {ℓ} : {A : Type ℓ} → Db A → Store → Result A × Store
  serve (ret a) s = (ok a, s)
  serve (throw e) s = (throws e, s)
  serve (ask q k) s = let (r, s') = execute q s in serve (k r) s'

  abbrev Matches {ℓ} : {A : Type ℓ} → Result A × Store → Result A × Tables → Type ℓ
  Matches x y = (x.0 ≡ y.0) × (tables x.1 ≡ y.1)

  Matches-ask {ℓ} :
      {A : Type ℓ} (p q : Db A) (s : Store) (t : Tables)
      → p ≡ q
      → tables s ≡ t
      → Matches (serve p s) (run p (tables s))
      → Matches (serve p s) (run q t)
  Matches-ask p q s t e h a = subst₂ (λ q t. Matches (serve p s) (run q t)) e h a

  -- On any such database a service's code has the result that `run` has, exceptions included, and
  -- leaves the tables that `run` leaves.
  pub serve-refines {ℓ} :
      {A : Type ℓ} (p : Db A) (s : Store)
      → ((serve p s).0 ≡ (run p (tables s)).0) × (tables (serve p s).1 ≡ (run p (tables s)).1)
  unfolding serve
  serve-refines (ret a) s = (refl, refl)
  serve-refines (throw e) s = (refl, refl)
  serve-refines (ask q k) s =
      let (r, s') = execute q s in
      Matches-ask (k r) (k (query q (tables s)).0) s' (query q (tables s)).1
        (ap k (execute_rows q s)) (execute_tables q s) (serve-refines (k r) s')

-- The simplest such database.
abbrev pub in_memory_tables : Database
in_memory_tables = record {
  Store = Tables;
  tables = λ t. t;
  execute = query;
  execute_rows = λ q s. refl;
  execute_tables = λ q s. refl;
}
