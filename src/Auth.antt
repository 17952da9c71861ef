-- ===== src/Auth.antt =====
-- src/karapace/core/auth.py: users, access control entries and the authorizers. The password hashes
-- and the matching of regular expressions are parameters; the file of users is read elsewhere.
pub mod Decisions
use karapace.Prelude.{
  ℕ, Bool, true, false, ◌&&◌, ◌||◌, Option, none, some, List, [], ◌∷◌, String, string_eq, ◌==◌,
  is_empty, if◌then◌else◌,
}
use karapace.Dict.{Dict, get, set}
use karapace.Outcome.{
  Result, ok, err, ◌>>=◌, or_raise, key_error, value_error, authentication_error,
}

-- `Operation`
pub data Operation : Type 0 where
  read write : Operation

-- `HashAlgorithm`
pub data HashAlgorithm : Type 0 where
  sha1 sha256 sha512 scrypt : HashAlgorithm

-- `User`
pub record User : Type 0 where
  pub username : String
  pub algorithm : HashAlgorithm
  pub salt : String
  pub password_hash : String

-- `ACLEntry`; the pattern is kept as its text
pub record AclEntry : Type 0 where
  pub username : String
  pub operation : Operation
  pub resource : String

-- What the code takes from libraries: `hash_password` (PBKDF2 and scrypt), and `match` of a compiled
-- pattern on a text.
pub record Primitives : Type 0 where
  pub hash_password : HashAlgorithm → String → String → String
  pub matches : String → String → Bool
  pub compiles : String → Bool

-- `ACLAuthorizer`
pub record AclAuthorizer : Type 0 where
  pub user_db : Dict String User
  pub permissions : List AclEntry

-- `get_user`
abbrev pub get_user : String → AclAuthorizer → Option User
get_user username a = get username a.user_db

abbrev is_read : Operation → Bool
is_read read = true
is_read write = false

abbrev is_write : Operation → Bool
is_write read = false
is_write write = true

-- `_check_operation`
unfoldable pub check_operation : Operation → AclEntry → Bool
check_operation operation entry = is_read operation || is_write entry.operation

module _ (primitives : Primitives) where
  -- `User.compare_password`
  abbrev pub compare_password : User → String → Bool
  compare_password user plaintext_password =
      user.password_hash == primitives.hash_password user.algorithm user.salt plaintext_password

  -- `_check_resources`
  unfoldable pub check_resources : List String → AclEntry → Bool
  check_resources [] entry = false
  check_resources (resource ∷ resources) entry =
      let rest = check_resources resources entry in
      if primitives.matches entry.resource resource then true else rest

  -- the test of the loop in both checks
  abbrev pub grants : User → Operation → List String → AclEntry → Bool
  grants user operation resources entry =
      entry.username == user.username
      && (check_operation operation entry && check_resources resources entry)

  -- the loop of both checks
  unfoldable pub any_grants : User → Operation → List String → List AclEntry → Bool
  any_grants user operation resources [] = false
  any_grants user operation resources (entry ∷ permissions) =
      let rest = any_grants user operation resources permissions in
      if grants user operation resources entry then true else rest

  -- `check_authorization`
  unfoldable pub check_authorization : Option User → Operation → String → AclAuthorizer → Bool
  check_authorization none operation resource a = false
  check_authorization (some user) operation resource a =
      any_grants user operation (resource ∷ []) a.permissions

  -- `check_authorization_any`
  unfoldable pub check_authorization_any :
      Option User → Operation → List String → AclAuthorizer → Bool
  check_authorization_any none operation resources a = false
  check_authorization_any (some user) operation resources a =
      any_grants user operation resources a.permissions

  -- `authenticate`
  unfoldable pub authenticate : String → String → AclAuthorizer → Result User
  authenticate username password a = do
    user ← or_raise (get_user username a) authentication_error
    if compare_password user password then ok user else err authentication_error

-- `UserData`, `ACLEntryData` and `AuthData`: the entries of the file, as texts
pub record UserData : Type 0 where
  pub username : String
  pub algorithm : String
  pub salt : String
  pub password_hash : String

pub record AclEntryData : Type 0 where
  pub username : String
  pub operation : String
  pub resource : String

pub record AuthData : Type 0 where
  pub users : List UserData
  pub permissions : List AclEntryData

-- `HashAlgorithm(text)` and `Operation(text)`
abbrev pub algorithm_of : String → Result HashAlgorithm
algorithm_of s =
    if s == "sha1"
    then ok sha1
    else if s == "sha256"
    then ok sha256
    else if s == "sha512"
    then ok sha512
    else if s == "scrypt"
    then ok scrypt
    else err value_error

abbrev pub operation_of : String → Result Operation
operation_of s = if s == "Read" then ok read else if s == "Write" then ok write else err value_error

-- the dictionary of users, in which a later entry of a name takes the place of an earlier one
unfoldable pub load_users : List UserData → Dict String User → Result (Dict String User)
load_users [] found = ok found
load_users (u ∷ us) found = do
  algorithm ← algorithm_of u.algorithm
  load_users us (
      set u.username
        (record {
          username = u.username;
          algorithm = algorithm;
          salt = u.salt;
          password_hash = u.password_hash;
        })
        found)

unfoldable pub load_permissions : Primitives → List AclEntryData → Result (List AclEntry)
load_permissions primitives [] = ok []
load_permissions primitives (e ∷ es) = do
  operation ← operation_of e.operation
  resource ← (if primitives.compiles e.resource then ok e.resource else err value_error)
  rest ← load_permissions primitives es
  ok (record { username = e.username; operation = operation; resource = resource } ∷ rest)

-- `_load_authfile` of `HTTPAuthorizer` on the decoded file: the old state stays unless all of it loads
abbrev take_loaded : AclAuthorizer → Result AclAuthorizer → Result (Unit {0}) × AclAuthorizer
take_loaded a (ok b) = (ok tt, b)
take_loaded a (err x) = (err x, a)

unfoldable pub load_authfile :
    Primitives → Option AuthData → AclAuthorizer → Result (Unit {0}) × AclAuthorizer
load_authfile primitives data' a = take_loaded a (do
  d ← or_raise data' value_error
  users ← load_users d.users []
  permissions ← load_permissions primitives d.permissions
  ok (record { user_db = users; permissions = permissions }))
