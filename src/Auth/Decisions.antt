-- ===== src/Auth/Decisions.antt =====
-- What the authorizer allows, and what it loads.
use karapace.Prelude.{
  ◌≡◌, refl, Bool, true, ◌||◌, Option, none, some, List, [], ◌∷◌, String, arith, any_of, string_eq,
  if◌then◌else◌,
}
use karapace.Outcome.{Result, ok, err, value_error}
use karapace.Auth.{
  Operation, read, write, User, AclEntry, AclEntryData, Primitives, AclAuthorizer, check_operation,
  check_resources, grants, any_grants, check_authorization, check_authorization_any, operation_of,
  AuthData, load_users,
}

module _ (p : Primitives) where
  check_resources-any :
      (entry : AclEntry) (resources : List String)
      → check_resources p resources entry ≡ any_of (λ r. check_resources p (r ∷ []) entry) resources
  unfolding check_resources
  check_resources-any entry [] = refl
  check_resources-any entry (r ∷ rs) = ground (arith, check_resources-any entry rs)

  -- the test of one entry, distributed over the resources
  grants-any :
      (user : User) (op : Operation) (entry : AclEntry) (resources : List String)
      → grants p user op resources entry ≡ any_of (λ r. grants p user op (r ∷ []) entry) resources
  unfolding check_resources
  grants-any user op entry [] = ground arith
  grants-any user op entry (r ∷ rs) = ground (arith, grants-any user op entry rs)

  any_of-if :
      (f g : String → Bool) (xs : List String)
      → any_of (λ x. if f x then true else g x) xs ≡ (any_of f xs || any_of g xs)
  any_of-if f g [] = refl
  any_of-if f g (x ∷ xs) = ground (arith, any_of-if f g xs)

  any_grants-any :
      (user : User) (op : Operation) (resources : List String) (entries : List AclEntry)
      → any_grants p user op resources entries
        ≡ any_of (λ r. any_grants p user op (r ∷ []) entries) resources
  unfolding any_grants
  any_grants-any user op [] [] = refl
  any_grants-any user op (r ∷ rs) [] = any_grants-any user op rs []
  any_grants-any user op rs (e ∷ es) = ground (
    arith,
    grants-any user op e rs,
    any_grants-any user op rs es,
    any_of-if (λ r. grants p user op (r ∷ []) e) (λ r. any_grants p user op (r ∷ []) es) rs,
  )

  -- A user may act on any of some resources exactly if the user may act on one of them.
  check_authorization_any-any_of :
      (user : Option User) (op : Operation) (resources : List String) (a : AclAuthorizer)
      → check_authorization_any p user op resources a
        ≡ any_of (λ r. check_authorization p user op r a) resources
  unfolding check_authorization check_authorization_any
  check_authorization_any-any_of none op [] a = refl
  check_authorization_any-any_of none op (r ∷ rs) a =
      ground (arith, check_authorization_any-any_of none op rs a)
  check_authorization_any-any_of (some user) op resources a =
      any_grants-any user op resources a.permissions

  any_grants-read :
      (user : User) (resources : List String) (entries : List AclEntry)
      → any_grants p user write resources entries ≡ true
      → any_grants p user read resources entries ≡ true
  unfolding any_grants check_operation
  any_grants-read user resources [] h = h
  any_grants-read user resources (e ∷ es) h = ground (arith, any_grants-read user resources es)

  -- Who may write a resource may read it.
  pub check_authorization-write_read :
      (user : Option User) (resource : String) (a : AclAuthorizer)
      → check_authorization p user write resource a ≡ true
      → check_authorization p user read resource a ≡ true
  unfolding check_authorization
  check_authorization-write_read none resource a h = h
  check_authorization-write_read (some user) resource a h =
      any_grants-read user (resource ∷ []) a.permissions h

  -- the entries that load are those of the file, in its order and with its texts
  abbrev pub Loads : List AclEntryData → Result (List AclEntry) → Type 0
  Loads es (err x) = x ≡ value_error
  Loads [] (ok loaded) = loaded ≡ []
  Loads (e ∷ es) (ok []) = ⊥
  Loads (e ∷ es) (ok (l ∷ ls)) =
      (l.username ≡ e.username)
      × (l.resource ≡ e.resource)
      × (operation_of e.operation ≡ ok l.operation)
      × (p.compiles e.resource ≡ true)
      × Loads es (ok ls)

  -- what reading the file comes to
  abbrev pub LoadsFile :
      Option AuthData → AclAuthorizer → Result (Unit {0}) × AclAuthorizer → Type 0
  LoadsFile data' a (err x, b) = b ≡ a
  LoadsFile data' a (ok u, b) =
      (d : AuthData) × (data' ≡ some d)
      × (load_users d.users [] ≡ ok b.user_db)
      × Loads d.permissions (ok b.permissions)
