-- ===== src/Redis/Client.antt =====
-- The Redis server as the program meets it: something that answers commands. What is proved of the
-- programs over a `Dataset` holds of every server that answers as the documentation says.
use mathlib.Core.Path.{subst₂}
use vertxing.Prelude.{◌≡◌, refl, ap}
use vertxing.Redis.Dataset.{Dataset, Command, Reply, answer}
use vertxing.Redis.Prog.{Prog, ret, send, run}

pub record Client : Type 1 where
  pub Store : Type 0
  -- What the server holds now.
  pub look : Store → Dataset
  pub execute : (m : Command) → Store → Reply m × Store
  pub execute_reply : (m : Command) (s : Store) → (execute m s).0 ≡ (answer m (look s)).0
  pub execute_look : (m : Command) (s : Store) → look (execute m s).1 ≡ (answer m (look s)).1

module _ (c : Client) where
  open c use {Store, look, execute, execute_reply, execute_look}

  pub run_on {ℓ} : {A : Type ℓ} → Prog A → Store → A × Store
  run_on (ret a) s = (a, s)
  run_on (send m k) s = let (r, s') = execute m s in run_on (k r) s'

  abbrev Agrees {ℓ} : {A : Type ℓ} → A × Store → A × Dataset → Type ℓ
  Agrees x y = (x.0 ≡ y.0) × (look x.1 ≡ y.1)

  Agrees-send {ℓ} :
      {A : Type ℓ} (p q : Prog A) (s : Store) (d : Dataset)
      → p ≡ q
      → look s ≡ d
      → Agrees (run_on p s) (run p (look s))
      → Agrees (run_on p s) (run q d)
  Agrees-send p q s d e h a = subst₂ (λ q d. Agrees (run_on p s) (run q d)) e h a

  -- On any such server a program returns what `run` returns and leaves the dataset that `run`
  -- leaves.
  pub run_on-refines {ℓ} :
      {A : Type ℓ} (p : Prog A) (s : Store)
      → ((run_on p s).0 ≡ (run p (look s)).0) × (look (run_on p s).1 ≡ (run p (look s)).1)
  unfolding run_on
  run_on-refines (ret a) s = (refl, refl)
  run_on-refines (send m k) s =
      let (r, s') = execute m s in
      Agrees-send (k r) (k (answer m (look s)).0) s' (answer m (look s)).1
        (ap k (execute_reply m s)) (execute_look m s) (run_on-refines (k r) s')

-- The simplest such server.
abbrev pub in_memory : Client
in_memory = record {
  Store = Dataset;
  look = λ d. d;
  execute = answer;
  execute_reply = λ m s. refl;
  execute_look = λ m s. refl;
}
