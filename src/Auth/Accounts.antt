-- ===== src/Auth/Accounts.antt =====
-- Who may sign up, as what, and that one who did signs in: auth.service.ts, under
-- apps/api/src/modules/auth.
use vertxing.Prelude.{
  ℕ, suc, ◌≤◌, String, ◌≡◌, ◌∙◌, refl, sym, ap, true, false, none, some, List, [], ◌∷◌, ◌++◌, ◌==◌,
  arith, leb, if◌then◌else◌, is_some, length, eq_refl,
}
use vertxing.Http.{HttpError, conflict, forbidden, Result, ok, throws}
use vertxing.Database.Tables.{DbRole, db_user, db_super_admin, UserWithRole}
use vertxing.Users.Service.{to_public_user}
use vertxing.License.{active, assert_seat_available}
use vertxing.Auth.SignIn.{
  Account, Store, Config, RegisterDto, LoginDto, AuthResult, Fresh, normalized, find_by_email,
  new_account, signed_in, create, is_owner, admit, seated, register, login_as, login, invalid_login,
}

-- The rule of registration: the first account and the designated address are the owner's and need no
-- seat; anyone else needs a free one; an address that is taken is refused.
pub data Ruling : Type 0 where
  taken no_seat : Ruling
  joins_as : DbRole → Ruling

unfoldable pub ruling : Config → ℕ → String → Store → Ruling
ruling config now email st =
    if is_some (find_by_email email st.accounts)
    then taken
    else if is_owner config email st.accounts
    then joins_as db_super_admin
    else if leb (active now st.licenses).seats (length st.accounts)
    then no_seat
    else joins_as db_user

unfoldable pub registered :
    Config → Fresh → RegisterDto → Ruling → Store → Result AuthResult × Store
registered config fresh dto taken st =
    (throws (conflict "An account with this email already exists"), st)
registered config fresh dto no_seat st =
    (throws (forbidden "License limit reached. Please contact your administrator."), st)
registered config fresh dto (joins_as role) st =
    let a = new_account config fresh dto (normalized dto.email) role in
    signed_in config fresh.jti a.user (record st { accounts = st.accounts ++ (a ∷ []) })

-- `register` by cases; `Auth.Registration` writes out what each case leaves.
pub register-ruling :
    (config : Config) (fresh : Fresh) (dto : RegisterDto) (st : Store)
    → register config fresh dto st
      ≡ registered config fresh dto (ruling config fresh.now (normalized dto.email) st) st
unfolding register admit seated create assert_seat_available ruling registered new_account
register-ruling config fresh dto st = ground arith

find_by_email-append :
    (email : String) (a : Account) (accounts : List Account)
    → is_some (find_by_email email accounts) ≡ false
    → find_by_email email (accounts ++ (a ∷ []))
      ≡ (if a.user.row.email == email then some a else none)
unfolding find_by_email
find_by_email-append email a [] h = refl
find_by_email-append email a (b ∷ rest) h = ground (arith, find_by_email-append email a rest)

free :
    (config : Config) (now : ℕ) (email : String) (st : Store) (role : DbRole)
    → ruling config now email st ≡ joins_as role
    → is_some (find_by_email email st.accounts) ≡ false
unfolding ruling
free config now email st role h = ground arith

answers :
    (config : Config) (jti : String) (user : UserWithRole) (st : Store)
    → (y : AuthResult) × ((signed_in config jti user st).0 ≡ ok y) × (y.user ≡ to_public_user user)
unfolding signed_in
answers config jti user st = (_, refl, refl)

same_user : (x y : AuthResult) → ok x ≡ ok y → x.user ≡ y.user
same_user x y h = ground arith

module _ (config : Config) (fresh : Fresh) (dto : RegisterDto) (st : Store) where
  abbrev email : String
  email = normalized dto.email

  abbrev account : DbRole → Account
  account role = new_account config fresh dto email role

  abbrev kept : DbRole → List Account
  kept role = st.accounts ++ (account role ∷ [])

  -- The new account is found under its address.
  found :
      (role : DbRole)
      → ruling config fresh.now email st ≡ joins_as role
      → find_by_email email (kept role) ≡ some (account role)
  unfolding new_account
  found role h =
      find_by_email-append email (account role) st.accounts (free config fresh.now email st role h)
      ∙ ground (arith, eq_refl email)

  -- An answer comes of one of the two roles.
  answered :
      (x : AuthResult) (r : Ruling)
      → (registered config fresh dto r st).0 ≡ ok x
      → (role : DbRole) × (r ≡ joins_as role)
  unfolding registered
  answered x taken h = absurd (cc h)
  answered x no_seat h = absurd (cc h)
  answered x (joins_as role) h = (role, refl)

  login_joined :
      (role : DbRole) (jti : String) (l : LoginDto)
      → ruling config fresh.now email st ≡ joins_as role
      → normalized l.email ≡ email
      → config.bcrypt.matches l.password (config.bcrypt.hash dto.password fresh.salt) ≡ true
      → let st' = (registered config fresh dto (joins_as role) st).1 in
        login config jti l st' ≡ signed_in config jti (account role).user st'
  unfolding login login_as registered signed_in new_account
  login_joined role jti l h e m =
      let st' = (registered config fresh dto (joins_as role) st).1 in
      ap (λ a. login_as config jti l.password (find_by_email a (kept role)) st') e
      ∙ ap (λ o. login_as config jti l.password o st') (found role h)
      ∙ ap (λ b. if b then signed_in config jti (account role).user st' else (invalid_login, st')) m

  after :
      (x : AuthResult) (jti : String) (l : LoginDto) (role : DbRole) (s : Result AuthResult × Store)
      → s ≡ registered config fresh dto (joins_as role) st
      → s.0 ≡ ok x
      → ruling config fresh.now email st ≡ joins_as role
      → normalized l.email ≡ email
      → config.bcrypt.matches l.password (config.bcrypt.hash dto.password fresh.salt) ≡ true
      → (y : AuthResult) × ((login config jti l s.1).0 ≡ ok y) × (y.user ≡ x.user)
  unfolding registered
  after x jti l role s q h r e m =
      let user = (account role).user in
      let st' : Store = record st { accounts = kept role } in
      let s' = (registered config fresh dto (joins_as role) st).1 in
      let (y, p, u) = answers config jti user s' in
      let (x', p', u') = answers config fresh.jti user st' in
      (
        y,
        ap (λ s. (login config jti l s.1).0) q ∙ ap (λ s. s.0) (login_joined role jti l r e m) ∙ p,
        u ∙ sym u' ∙ same_user x' x (sym p' ∙ sym (ap (λ s. s.0) q) ∙ h),
      )

  -- Who has registered signs in, with the password of the registration and the address however it is
  -- capitalised and padded, and gets the account that the registration answered with.
  pub register-login :
      (x : AuthResult) (jti : String) (l : LoginDto)
      → (register config fresh dto st).0 ≡ ok x
      → normalized l.email ≡ normalized dto.email
      → config.bcrypt.matches l.password (config.bcrypt.hash dto.password fresh.salt) ≡ true
      → (y : AuthResult) × ((login config jti l (register config fresh dto st).1).0 ≡ ok y)
        × (y.user ≡ x.user)
  register-login x jti l h e m =
      let p = register-ruling config fresh dto st in
      let (role, r) = answered x (ruling config fresh.now email st) (sym (ap (λ s. s.0) p) ∙ h) in
      after x jti l role (register config fresh dto st)
        (p ∙ ap (λ r. registered config fresh dto r st) r) h r e m

length-append : {A : Type 0} (a : A) (l : List A) → length (l ++ (a ∷ [])) ≡ suc (length l)
length-append a [] = refl
length-append a (b ∷ l) = ap suc (length-append a l)

seat :
    (config : Config) (now : ℕ) (email : String) (st : Store) (role : DbRole)
    → ruling config now email st ≡ joins_as role
    → is_owner config email st.accounts ≡ false
    → suc (length st.accounts) ≤ (active now st.licenses).seats
unfolding ruling
seat config now email st role h o = ground arith

-- A registration that is granted to anyone but the owner leaves no more accounts than the licence in
-- force has seats.
pub register_seats :
    (config : Config) (fresh : Fresh) (dto : RegisterDto) (st : Store) (x : AuthResult)
    → (register config fresh dto st).0 ≡ ok x
    → is_owner config (normalized dto.email) st.accounts ≡ false
    → length (register config fresh dto st).1.accounts ≤ (active fresh.now st.licenses).seats
unfolding registered signed_in
register_seats config fresh dto st x h o =
    let p = register-ruling config fresh dto st in
    let (role, r) = answered config fresh dto st x _ (sym (ap (λ s. s.0) p) ∙ h) in
    let q =
      ap (λ s. length s.1.accounts) (p ∙ ap (λ r. registered config fresh dto r st) r)
      ∙ length-append (account config fresh dto st role) st.accounts in
    rw q (seat config fresh.now (normalized dto.email) st role r o)

-- A sign-in that fails, for an unknown address as for a wrong password, fails with the same message
-- and changes nothing.
pub login_fails :
    (config : Config) (jti : String) (l : LoginDto) (st : Store) (e : HttpError)
    → (login config jti l st).0 ≡ throws e
    → login config jti l st ≡ (invalid_login, st)
unfolding login login_as signed_in
login_fails config jti l st e h = ground arith
