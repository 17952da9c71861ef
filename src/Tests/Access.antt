-- ===== src/Tests/Access.antt =====
-- Runs of the authorizer.
use karapace.Prelude.{◌≡◌, refl, true, some, [], ◌∷◌, string_eq, ◌==◌}
use karapace.Auth.{
  write, sha1, User, AuthData, Primitives, AclAuthorizer, check_authorization, check_operation,
  check_resources, any_grants,
}

-- patterns that match their own text, and a hash that keeps the password
abbrev plain : Primitives
plain = record {
  hash_password = λ algorithm salt password. password;
  matches = λ pattern resource. pattern == resource;
  compiles = λ pattern. true;
}

abbrev ann : User
ann = record { username = "ann"; algorithm = sha1; salt = ""; password_hash = "secret" }

abbrev writers : AclAuthorizer
writers = record {
  user_db = ("ann", ann) ∷ [];
  permissions = record { username = "ann"; operation = write; resource = "Subject:users" } ∷ [];
}

ann_writes : check_authorization plain (some ann) write "Subject:users" writers ≡ true
unfolding check_authorization check_operation check_resources any_grants
ann_writes = refl

abbrev file : AuthData
file = record {
  users = record { username = "bob"; algorithm = "sha512"; salt = "s"; password_hash = "h" } ∷ [];
  permissions = record { username = "bob"; operation = "Read"; resource = "Config:" } ∷ [];
}
