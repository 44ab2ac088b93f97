-- ===== src/Meetings/Sequence.antt =====
-- How code that talks to the database and to Redis runs in sequence.
use vertxing.Prelude.{◌≡◌, ◌∙◌, refl, ap, Bool, true, false, if◌then◌else◌}
use vertxing.Http.{HttpError, Result, ok, throws}
use vertxing.Redis.Dataset.{answer}
use vertxing.Redis.Prog.{Prog, run, ret as done, send}
use vertxing.Meetings.World.{World, query, App, ret, throw, ask, tell, lift, serve, ◌>>=◌}
use vertxing.Meetings.Service.{succeeds}

abbrev pub is_ok {ℓ} : {A : Type ℓ} → Result A → Bool
is_ok (ok a) = true
is_ok (throws e) = false

-- What comes after a result: the rest of the code, or the exception.
abbrev pub continue {ℓ κ} :
    {A : Type ℓ} {B : Type κ} → Result A × World → (A → App B) → Result B × World
continue (ok a, w) f = serve (f a) w
continue (throws e, w) f = (throws e, w)

pub serve-bind {ℓ κ} :
    {A : Type ℓ} {B : Type κ} (p : App A) (f : A → App B) (w : World)
    → serve (p >>= f) w ≡ continue (serve p w) f
serve-bind (ret a) f w = refl
serve-bind (throw e) f w = refl
serve-bind (ask q k) f w = let (r, w') = query q w in serve-bind (k r) f w'
serve-bind (tell m k) f w =
    let (r, d) = answer m w.redis in serve-bind (k r) f (record w { redis = d })

pub serve-lift {ℓ} :
    {A : Type ℓ} (p : Prog A) (w : World)
    → serve (lift p) w ≡ (ok (run p w.redis).0, record w { redis = (run p w.redis).1 })
serve-lift (done a) w = refl
serve-lift (send m k) w = let (r, d) = answer m w.redis in serve-lift (k r) (record w { redis = d })

pub stops {ℓ κ} :
    {A : Type ℓ} {B : Type κ} (p : App A) (f : A → App B) (w : World) (e : HttpError)
    → serve p w ≡ (throws e, w)
    → serve (p >>= f) w ≡ (throws e, w)
stops p f w e h = serve-bind p f w ∙ ap (λ x. continue x f) h

pub goes_on {ℓ κ} :
    {A : Type ℓ} {B : Type κ} (p : App A) (f : A → App B) (w w' : World) (a : A)
    → serve p w ≡ (ok a, w')
    → serve (p >>= f) w ≡ serve (f a) w'
goes_on p f w w' a h = serve-bind p f w ∙ ap (λ x. continue x f) h

pub serve-succeeds {ℓ} :
    {A : Type ℓ} (p : App A) (w : World)
    → serve (succeeds p) w ≡ (ok (is_ok (serve p w).0), (serve p w).1)
serve-succeeds (ret a) w = refl
serve-succeeds (throw e) w = refl
serve-succeeds (ask q k) w = let (r, w') = query q w in serve-succeeds (k r) w'
serve-succeeds (tell m k) w =
    let (r, d) = answer m w.redis in serve-succeeds (k r) (record w { redis = d })

pub serve-if {ℓ} :
    {A : Type ℓ} (b : Bool) (p q : App A) (w : World)
    → serve (if b then p else q) w ≡ (if b then serve p w else serve q w)
serve-if true p q w = refl
serve-if false p q w = refl
