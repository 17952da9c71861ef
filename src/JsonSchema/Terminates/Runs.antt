-- ===== src/JsonSchema/Terminates/Runs.antt =====
-- Steps that end with a result or with an error that is not of the fuel, and how they are put together.
use karapace.Prelude.{◌≡◌, refl, Bool, true, false, List, [], ◌∷◌, All, if◌then◌else◌}
use karapace.Outcome.{Returns, Result, ok, err, raise_if, assertion_error, ◌>>=◌, ◌>>◌}
use karapace.JsonSchema.Types.{
  Incompatibility, CompatibilityResult, compatible, is_incompatible, AssertionCheck, Location,
  Packages,
}
use karapace.JsonSchema.Json.{JsonValue, Members}
use karapace.JsonSchema.Steps.{
  Statement, done, ◌then◌, for_each, when, with_value, add, merge_result, if_incompatible,
}
use karapace.JsonSchema.Assertions.{assertion_steps, check_assertion_compatibility}
use karapace.JsonSchema.Scalars.{check_all}

pub bind-Returns {κ ℓ} :
    {B : Type κ} {A : Type ℓ} (m : Result A) (f : A → Result B)
    → Returns m
    → ((a : A) → m ≡ ok a → Returns (f a))
    → Returns (m >>= f)
bind-Returns (ok a) f r g = g a refl
bind-Returns (err x) f r g = r

pub bind_any-Returns {κ ℓ} :
    {B : Type κ} {A : Type ℓ} (m : Result A) (f : A → Result B)
    → Returns m
    → ((a : A) → Returns (f a))
    → Returns (m >>= f)
bind_any-Returns (ok a) f r g = g a
bind_any-Returns (err x) f r g = r

pub if-Returns {ℓ} :
    {A : Type ℓ} (b : Bool) (m n : Result A) → Returns m → Returns n → Returns (if b then m else n)
if-Returns true m n hm hn = hm
if-Returns false m n hm hn = hn

-- what follows a call with an assertion, or two, before it
pub guarded-Returns {κ ℓ} :
    {B : Type κ} {A : Type ℓ} (b : Bool) (m : Result A) (f : A → Result B)
    → Returns m
    → ((a : A) → m ≡ ok a → Returns (f a))
    → Returns (raise_if b assertion_error >> m >>= f)
guarded-Returns true m f r g = tt
guarded-Returns false m f r g = bind-Returns m f r g

pub twice_guarded-Returns {κ ℓ} :
    {B : Type κ} {A : Type ℓ} (b c : Bool) (m : Result A) (f : A → Result B)
    → Returns m
    → ((a : A) → m ≡ ok a → Returns (f a))
    → Returns (raise_if b assertion_error >> raise_if c assertion_error >> m >>= f)
twice_guarded-Returns true c m f r g = tt
twice_guarded-Returns false true m f r g = tt
twice_guarded-Returns false false m f r g = bind-Returns m f r g

unfoldable pub Runs : Statement → Type 0
Runs f = (r : CompatibilityResult) → Returns (f r)

pub result-Returns : (f : Statement) → Runs f → (r : CompatibilityResult) → Returns (f r)
unfolding Runs
result-Returns f h = h

pub done-Runs : Runs done
unfolding Runs done
done-Runs r = tt

pub add-Runs : (i : Incompatibility) (location : Location) → Runs (add i location)
unfolding Runs add
add-Runs i location r = tt

pub then-Runs : (f g : Statement) → Runs f → Runs g → Runs (f then g)
unfolding Runs ◌then◌
then-Runs f g hf hg r = bind_any-Returns (f r) g (hf r) hg

pub when-Runs : (b : Bool) (f : Statement) → Runs f → Runs (when b f)
unfolding when
when-Runs true f h = h
when-Runs false f h = done-Runs

pub if-Runs : (b : Bool) (f g : Statement) → Runs f → Runs g → Runs (if b then f else g)
if-Runs true f g hf hg = hf
if-Runs false f g hf hg = hg

pub with_value-Runs {ℓ} :
    {A : Type ℓ} (m : Result A) (f : A → Statement)
    → Returns m
    → ((a : A) → m ≡ ok a → Runs (f a))
    → Runs (with_value m f)
unfolding Runs with_value
with_value-Runs m f hm hf r = bind-Returns m (λ a. f a r) hm (λ a e. hf a e r)

-- where the value does not matter
pub with_any-Runs {ℓ} :
    {A : Type ℓ} (m : Result A) (f : A → Statement)
    → Returns m
    → ((a : A) → Runs (f a))
    → Runs (with_value m f)
unfolding Runs with_value
with_any-Runs m f hm hf r = bind_any-Returns m (λ a. f a r) hm (λ a. hf a r)

pub for_each-Runs {ℓ} :
    {A : Type ℓ} (xs : List A) (f : A → Statement) → All (λ x. Runs (f x)) xs → Runs (for_each xs f)
unfolding for_each
for_each-Runs [] f h = done-Runs
for_each-Runs (x ∷ xs) f (hx, h) = then-Runs (f x) (for_each xs f) hx (for_each-Runs xs f h)

pub for_every-Runs {ℓ} :
    {A : Type ℓ} (xs : List A) (f : A → Statement) → ((x : A) → Runs (f x)) → Runs (for_each xs f)
unfolding for_each
for_every-Runs [] f h = done-Runs
for_every-Runs (x ∷ xs) f h = then-Runs (f x) (for_each xs f) (h x) (for_every-Runs xs f h)

pub merge_result-Runs :
    (p : Packages) (m : Result CompatibilityResult) → Returns m → Runs (merge_result p m)
unfolding Runs merge_result
merge_result-Runs p m h r = bind_any-Returns m (λ s. ok (p.merge r s)) h (λ s. tt)

pub if_incompatible-Runs :
    (p : Packages) (m : Result CompatibilityResult) (f : CompatibilityResult → Statement)
    → Returns m
    → ((s : CompatibilityResult) → Runs (f s))
    → Runs (if_incompatible p m f)
unfolding Runs if_incompatible
if_incompatible-Runs p m f hm hf r =
    bind_any-Returns m (λ s. (if is_incompatible s then f s else done) r) hm
      (λ s. if-Runs (is_incompatible s) (f s) done (hf s) done-Runs r)

-- the comparison of a check does not recurse
abbrev pub Compares : AssertionCheck → Type 0
Compares c = (a b : JsonValue) → Returns (c.comparison a b)

assertion_steps-Runs :
    (r w : Members) (c : AssertionCheck) (location : Location)
    → Compares c
    → Runs (assertion_steps r w c location)
unfolding assertion_steps
assertion_steps-Runs r w c location h =
    then-Runs _ _ (when-Runs _ _ (add-Runs _ _))
      (with_any-Runs _ _ (h _ _) (λ b. when-Runs _ _ (add-Runs _ _)))

check_assertion_compatibility-Returns :
    (r w : Members) (c : AssertionCheck) (location : Location)
    → Compares c
    → Returns (check_assertion_compatibility r w c location)
unfolding check_assertion_compatibility
check_assertion_compatibility-Returns r w c location h =
    result-Returns (assertion_steps r w c location) (assertion_steps-Runs r w c location h)
      compatible

pub check_all-Runs :
    (p : Packages) (r w : Members) (location : Location) (checks : List AssertionCheck)
    → All Compares checks
    → Runs (check_all p checks r w location)
unfolding for_each
check_all-Runs p r w location [] h = done-Runs
check_all-Runs p r w location (c ∷ checks) (hc, h) =
    then-Runs _ _ (merge_result-Runs _ _ (check_assertion_compatibility-Returns r w c location hc))
      (check_all-Runs p r w location checks h)
