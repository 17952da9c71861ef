-- ===== src/Protobuf/Safe.antt =====
-- Steps of a comparison of src/karapace/core/protobuf that do not run out of fuel: what they are, and how
-- they are put together.
use karapace.Prelude.{
  arith, ◌++◌, ℕ, ◌≤◌, ◌≡◌, refl, sym, ◌∙◌, subst, Bool, true, false, some, List, [], ◌∷◌, String,
  string_eq, All, if◌then◌else◌,
}
use karapace.Dict.{Dict, get}
use karapace.Outcome.{Error, Finishes, Returns, Result, ok, err}
use karapace.Protobuf.Elements.{TypeElement}
use karapace.Protobuf.Locks.{unlocked, Within}
use karapace.Protobuf.Comparison.{
  compatible_result, ModificationRecord, Modification, TypeRecord, Comparison, Compare, done, fail,
  attempt, look, ◌>>=◌, ◌>>◌, for_each, push_path, push_canonical, pop_path, pop_canonical,
  add_modification, add_when,
}

-- the types of a dict and all types in them stand in a list
abbrev pub Inside : List TypeElement → Dict String TypeRecord → Type 0
Inside us types =
    (name : String) (r : TypeRecord) → get name types ≡ some r → Within us r.type_element

-- what a step ends with: an error that is not of the fuel, or a value as wanted, with the locks as before,
-- and still incompatible if it was
abbrev pub Ends :
    {A : Type 0} → List TypeElement → (A → Type 0) → Comparison → Result A × Comparison → Type 0
Ends us P c (ok a, d) =
    P a
    × Inside us d.self_types
    × (d.locked_messages ≡ c.locked_messages)
    × (compatible_result d.result ≡ true → compatible_result c.result ≡ true)
Ends us P c (err x, d) = Finishes x

-- a step that ends so if at most `k` types are not locked
abbrev pub Safe : {A : Type 0} → List TypeElement → ℕ → (A → Type 0) → Compare A → Type 0
Safe us k P m =
    (c : Comparison)
    → Inside us c.self_types
    → unlocked us c.locked_messages ≤ k
    → Ends us P c (m c)

abbrev pub Any : {A : Type 0} → A → Type 0
Any a = Unit

-- what was recorded stays
pub compatible-before :
    (xs ys : List ModificationRecord)
    → compatible_result (xs ++ ys) ≡ true
    → compatible_result xs ≡ true
compatible-before [] ys h = refl
compatible-before (x ∷ xs) ys h = ground (arith, compatible-before xs ys)

module _ (us : List TypeElement) (k : ℕ) where
  pub done-Safe : Safe us k Any done
  done-Safe c inside h = (tt, inside, refl, λ r. r)

  -- the value of a step goes on, with the same locks
  continue-Ends :
      {A B : Type 0} (P : A → Type 0) (Q : B → Type 0) (f : A → Compare B) (c : Comparison)
      (out : Result A × Comparison)
      → unlocked us c.locked_messages ≤ k
      → Ends us P c out
      → ((a : A) → P a → Safe us k Q (f a))
      → Ends us Q c (((λ (d : Comparison). out) >>= f) c)
  continue-Ends {B = B} P Q f c (err x, d) h e g = e
  continue-Ends {B = B} P Q f c (ok a, d) h (p, inside, same, kept) g =
      same_locks (f a d) (g a p d inside (subst (λ l. unlocked us l ≤ k) (sym same) h))
    where
      same_locks : (out : Result B × Comparison) → Ends us Q d out → Ends us Q c out
      same_locks (ok b, e) (q, i, l, r) = (q, i, l ∙ same, λ x. kept (r x))
      same_locks (err x, e) q = q

  pub bind-Safe :
      {A B : Type 0} (P : A → Type 0) (Q : B → Type 0) (m : Compare A) (f : A → Compare B)
      → Safe us k P m
      → ((a : A) → P a → Safe us k Q (f a))
      → Safe us k Q (m >>= f)
  bind-Safe P Q m f hm hf c inside h = continue-Ends P Q f c (m c) h (hm c inside h) hf

  pub seq-Safe :
      (m n : Compare (Unit {0})) → Safe us k Any m → Safe us k Any n → Safe us k Any (m >> n)
  seq-Safe m n hm hn = bind-Safe Any Any m (λ _. n) hm (λ _ _. hn)

  pub for_each-Safe :
      {A : Type 0} (xs : List A) (f : A → Compare (Unit {0}))
      → All (λ a. Safe us k Any (f a)) xs
      → Safe us k Any (for_each xs f)
  for_each-Safe [] f h = done-Safe
  for_each-Safe (a ∷ xs) f (ha, h) = seq-Safe (f a) (for_each xs f) ha (for_each-Safe xs f h)

  pub for_every-Safe :
      {A : Type 0} (xs : List A) (f : A → Compare (Unit {0}))
      → ((a : A) → Safe us k Any (f a))
      → Safe us k Any (for_each xs f)
  for_every-Safe [] f h = done-Safe
  for_every-Safe (a ∷ xs) f h = seq-Safe (f a) (for_each xs f) (h a) (for_every-Safe xs f h)

  pub add_modification-Safe : (m : Modification) → Safe us k Any (add_modification m)
  unfolding add_modification
  add_modification-Safe m c inside h = (tt, inside, refl, compatible-before c.result _)

  pub add_when-Safe : (b : Bool) (m : Modification) → Safe us k Any (add_when b m)
  add_when-Safe true m = add_modification-Safe m
  add_when-Safe false m = done-Safe

  pub fail-Safe : (x : Error) → Finishes x → Safe us k Any (fail {A = Unit {0}} x)
  fail-Safe x f c inside h = f

  pub if-Safe :
      (b : Bool) (m n : Compare (Unit {0}))
      → Safe us k Any m
      → Safe us k Any n
      → Safe us k Any (if b then m else n)
  if-Safe true m n hm hn = hm
  if-Safe false m n hm hn = hn

  pub push_path-Safe : (name : String) → Safe us k Any (push_path name)
  push_path-Safe name c inside h = (tt, inside, refl, λ r. r)

  pub pop_path-Safe : Safe us k Any pop_path
  pop_path-Safe c inside h = (tt, inside, refl, λ r. r)

  -- a step between a name and its end
  pub scope-Safe :
      (name : String) (m : Compare (Unit {0}))
      → Safe us k Any m
      → Safe us k Any (push_path name >> m >> pop_path)
  scope-Safe name m hm =
      seq-Safe (push_path name >> m) pop_path (seq-Safe (push_path name) m (push_path-Safe name) hm)
        pop_path-Safe

  pub push_canonical-Safe : (name : String) → Safe us k Any (push_canonical name)
  push_canonical-Safe name c inside h = (tt, inside, refl, λ r. r)

  pub pop_canonical-Safe : Safe us k Any pop_canonical
  pop_canonical-Safe c inside h = (tt, inside, refl, λ r. r)

  pub canonical-Safe :
      (name : String) (m : Compare (Unit {0}))
      → Safe us k Any m
      → Safe us k Any (push_canonical name >> m >> pop_canonical)
  canonical-Safe name m hm =
      seq-Safe (push_canonical name >> m) pop_canonical
        (seq-Safe (push_canonical name) m (push_canonical-Safe name) hm) pop_canonical-Safe

  pub attempt-Safe : {A : Type 0} (m : Result A) → Returns m → Safe us k Any (attempt m)
  attempt-Safe (ok a) r c inside h = (tt, inside, refl, λ r. r)
  attempt-Safe (err x) r c inside h = r

  pub look-Safe :
      {A : Type 0} (P : A → Type 0) (f : Comparison → A)
      → ((c : Comparison) → Inside us c.self_types → P (f c))
      → Safe us k P (look (λ c. ok (f c)))
  look-Safe P f p c inside h = (p c inside, inside, refl, λ r. r)

  pub look-Returns :
      {A : Type 0} (f : Comparison → Result A)
      → ((c : Comparison) → Returns (f c))
      → Safe us k Any (look f)
  look-Returns f r c inside h = attempt-Safe (f c) (r c) c inside h
