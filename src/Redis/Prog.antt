-- ===== src/Redis/Prog.antt =====
-- Code that talks to Redis: a tree of commands, each an await at which other requests may run.
use vertxing.Redis.Dataset.{Dataset, Command, Reply, answer}

pub data Prog {ℓ} (A : Type ℓ) : Type ℓ where
  ret : A → Prog A
  send : (m : Command) → (Reply m → Prog A) → Prog A

infixl 5 ◌>>=◌ ◌>>◌
abbrev pub ◌>>=◌ {ℓ κ} : {A : Type ℓ} {B : Type κ} → Prog A → (A → Prog B) → Prog B
ret a >>= f = f a
send m k >>= f = send m (λ r. k r >>= f)

abbrev pub ◌>>◌ {ℓ κ} : {A : Type ℓ} {B : Type κ} → Prog A → Prog B → Prog B
m >> n = m >>= λ _. n

-- The code runs with no other request between its commands.
abbrev pub run {ℓ} : {A : Type ℓ} → Prog A → Dataset → A × Dataset
run (ret a) d = (a, d)
run (send m k) d = let (r, d') = answer m d in run (k r) d'
