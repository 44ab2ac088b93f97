-- ===== src/Database/Query.antt =====
-- Code that talks to the database: a tree of queries, with an exception that ends it.
use vertxing.Prelude.{Option, none, some}
use vertxing.Http.{HttpError, Result, ok, throws}
use vertxing.Database.Tables.{Tables, Query, Rows, query}

pub data Db {ℓ} (A : Type ℓ) : Type ℓ where
  ret : A → Db A
  throw : HttpError → Db A
  ask : (q : Query) → (Rows q → Db A) → Db A

infixl 5 ◌>>=◌ ◌>>◌
abbrev pub ◌>>=◌ {ℓ κ} : {A : Type ℓ} {B : Type κ} → Db A → (A → Db B) → Db B
ret a >>= f = f a
throw e >>= f = throw e
ask q k >>= f = ask q (λ r. k r >>= f)

abbrev pub ◌>>◌ {ℓ κ} : {A : Type ℓ} {B : Type κ} → Db A → Db B → Db B
m >> n = m >>= λ _. n

-- `if (!row) throw error`
abbrev pub or_throw {ℓ} : {A : Type ℓ} → HttpError → Option A → Db A
or_throw e none = throw e
or_throw e (some a) = ret a

-- The code runs with no other request between its queries.
abbrev pub run {ℓ} : {A : Type ℓ} → Db A → Tables → Result A × Tables
run (ret a) t = (ok a, t)
run (throw e) t = (throws e, t)
run (ask q k) t = let (r, t') = query q t in run (k r) t'
