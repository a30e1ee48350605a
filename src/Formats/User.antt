-- ===== src/Formats/User.antt =====
-- The user of a service, and the environment that is made for it: `User` and Service::get_environment
-- of horust/src/horust/formats/service.rs. `Users` is the user database of the system: `none` is an
-- error, `some none` a user that is not there.
use horust.Prelude.{ℕ, String, Option, none, some, List}
use horust.Prelude.Panic.{◌>>=◌}
use horust.Prelude.Outcome.{Outcome, err}
use horust.Formats.Service.{User, uid, name, Service, PathBuf}
use horust.Formats.Environment
use horust.Formats.Environment.{Variables}

pub record Passwd : Type 0 where
  pub uid : ℕ
  pub name : String
  pub dir : PathBuf

pub record Users : Type 0 where
  pub from_name : String → Option (Option Passwd)
  pub from_uid : ℕ → Option (Option Passwd)

-- `.with_context(...)?` on an `Option`
abbrev present {ℓ} : {A : Type ℓ} → Option (Option A) → Option A
present none = none
present (some o) = o

unfoldable pub get_uid : Users → User → Option ℕ
get_uid users (name n) = do user ← present (users.from_name n); some user.uid
get_uid users (uid n) = some n

unfoldable pub get_raw_user : Users → User → Option Passwd
unfolding get_uid
get_raw_user users user = do id ← get_uid users user; present (users.from_uid id)

abbrev pub get_name : Users → User → Option String
unfolding get_raw_user
get_name users user = do raw ← get_raw_user users user; some raw.name

abbrev pub get_home : Users → User → Option PathBuf
unfolding get_raw_user
get_home users user = do raw ← get_raw_user users user; some raw.dir

unfoldable pub get_environment : Variables → Users → Service → Outcome (List String)
get_environment v users service = elim (get_name users service.user) [
  | none ↦ err
  | some user_name ↦ elim (get_home users service.user) [
    | none ↦ err
    | some user_home ↦ Environment.get_environment v service.environment user_name user_home
  ]
]
