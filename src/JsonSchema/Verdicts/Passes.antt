-- ===== src/JsonSchema/Verdicts/Passes.antt =====
-- Steps that leave a result compatible only if a condition holds and it was compatible before, and how
-- they are put together.
use karapace.Prelude.{
  ◌≡◌, refl, ap, ◌∙◌, subst, inl, inr, Bool, true, false, ◌&&◌, List, [], ◌∷◌, All, arith,
  Bool-cases, if◌then◌else◌,
}
use karapace.Outcome.{Result, Result-cases, ok, err, ◌>>=◌}
use karapace.JsonSchema.Types.{
  Incompatibility, CompatibilityResult, compatible, is_incompatible, Location, Packages,
  AssertionCheck,
}
use karapace.JsonSchema.Json.{Members}
use karapace.JsonSchema.Steps.{
  Statement, done, ◌then◌, for_each, when, with_value, add, add_incompatibility, merge_result,
  if_incompatible,
}
use karapace.JsonSchema.Utils.{keyword_at}
use karapace.JsonSchema.Constraints.{introduced_constraint}
use karapace.JsonSchema.Assertions.{assertion_steps, check_assertion_compatibility}
use karapace.JsonSchema.Scalars.{check_all}

-- `merge` is compatible if both results are
abbrev pub Merges : Packages → Type 0
Merges p =
    (r s : CompatibilityResult) → (p.merge r s).is_compatible ≡ (r.is_compatible && s.is_compatible)

-- a compatible result
unfoldable pub Accepts : Result CompatibilityResult → Type 0
Accepts m = (r : CompatibilityResult) × (m ≡ ok r) × (r.is_compatible ≡ true)

pub accept :
    (m : Result CompatibilityResult) (r : CompatibilityResult)
    → m ≡ ok r
    → r.is_compatible ≡ true
    → Accepts m
unfolding Accepts
accept m r e c = (r, e, c)

unfoldable pub Passes : Statement → Type 0 → Type 0
Passes f P =
    (r s : CompatibilityResult) → f r ≡ ok s → s.is_compatible ≡ true → P × (r.is_compatible ≡ true)

pub done-Passes : Passes done (Unit {0})
unfolding Passes done
done-Passes r s h c = (tt, ground (arith, h, c))

-- nothing passes an incompatibility
pub add-Passes : (i : Incompatibility) (location : Location) → Passes (add i location) ⊥
unfolding Passes add add_incompatibility
add-Passes i location r s h c = absurd (ground (arith, h, c))

pub weaker-Passes : (P Q : Type 0) (f : Statement) → Passes f P → (P → Q) → Passes f Q
unfolding Passes
weaker-Passes P Q f hf g r s h c = let both = hf r s h c in (g both.0, both.1)

pub then-Passes :
    (P Q : Type 0) (f g : Statement) → Passes f P → Passes g Q → Passes (f then g) (P × Q)
unfolding Passes ◌then◌
then-Passes P Q f g hf hg r s h c = elim (Result-cases (f r)) [
  | inr (x, e) ↦ absurd (ground (arith, h, e))
  | inl (t, e) ↦
      let after = hg t s (subst (λ m. (m >>= g) ≡ ok s) e h) c in
      let before = hf r t e after.1 in ((before.0, after.0), before.1)
]

pub when-Passes :
    (P : Type 0) (b : Bool) (f : Statement) → Passes f P → Passes (when b f) (b ≡ true → P)
unfolding Passes when done
when-Passes P true f hf r s h c = let both = hf r s h c in ((λ e. both.0), both.1)
when-Passes P false f hf r s h c = ((λ e. absurd (ground (arith, e))), ground (arith, h, c))

pub if-Passes :
    (P Q : Type 0) (b : Bool) (f g : Statement)
    → Passes f P
    → Passes g Q
    → Passes (if b then f else g) ((b ≡ true → P) × (b ≡ false → Q))
unfolding Passes
if-Passes P Q true f g hf hg r s h c =
    let both = hf r s h c in (((λ e. both.0), (λ e. absurd (ground (arith, e)))), both.1)
if-Passes P Q false f g hf hg r s h c =
    let both = hg r s h c in (((λ e. absurd (ground (arith, e))), (λ e. both.0)), both.1)

pub with_value-Passes :
    {A : Type 0} (P : A → Type 0) (m : Result A) (f : A → Statement)
    → ((a : A) → Passes (f a) (P a))
    → Passes (with_value m f) ((a : A) × (m ≡ ok a) × P a)
unfolding Passes with_value
with_value-Passes P (ok a) f hf r s h c = let both = hf a r s h c in ((a, refl, both.0), both.1)
with_value-Passes P (err x) f hf r s h c = absurd (ground (arith, h))

pub for_each-Passes :
    {A : Type 0} (P : A → Type 0) (xs : List A) (f : A → Statement)
    → ((a : A) → Passes (f a) (P a))
    → Passes (for_each xs f) (All P xs)
unfolding for_each
for_each-Passes P [] f hf = done-Passes
for_each-Passes P (x ∷ xs) f hf =
    then-Passes (P x) (All P xs) (f x) (for_each xs f) (hf x) (for_each-Passes P xs f hf)

module _ (p : Packages) (merges : Merges p) where
  pub merge_result-Passes : (m : Result CompatibilityResult) → Passes (merge_result p m) (Accepts m)
  unfolding Passes merge_result Accepts
  merge_result-Passes (ok a) r s h c =
      ((a, refl, ground (arith, h, c, merges r a)), ground (arith, h, c, merges r a))
  merge_result-Passes (err x) r s h c = absurd (ground (arith, h))

  -- an incompatible result is merged
  pub if_incompatible-Passes :
      (m : Result CompatibilityResult) (f : CompatibilityResult → Statement)
      → ((a : CompatibilityResult) → is_incompatible a ≡ true → Passes (f a) ⊥)
      → Passes (if_incompatible p m f) (Accepts m)
  unfolding Passes if_incompatible Accepts done
  if_incompatible-Passes (err x) f hf r s h c = absurd (ground (arith, h))
  if_incompatible-Passes (ok a) f hf r s h c = elim (Bool-cases (is_incompatible a)) [
    | inl bad ↦ absurd ((hf a bad r s (subst (λ b. (if b then f a else done) r ≡ ok s) bad h) c).0)
    | inr good ↦
        let same : done r ≡ ok s = subst (λ b. (if b then f a else done) r ≡ ok s) good h in
        ((a, refl, ground (arith, good)), ground (arith, same, c))
  ]

  -- the result of a recursive call, merged where it is incompatible
  pub merged-Passes :
      (a : CompatibilityResult) → is_incompatible a ≡ true → Passes (merge_result p (ok a)) ⊥
  unfolding Passes merge_result
  merged-Passes a bad r s h c = absurd (ground (arith, h, c, bad, merges r a))

-- what an accepted check of a keyword says: neither branch was taken
pub assertion_steps-Passes :
    (r w : Members) (c : AssertionCheck) (location : Location)
    → Passes (assertion_steps r w c location) (
        (introduced_constraint (keyword_at c.keyword r) (keyword_at c.keyword w) ≡ false)
        × (c.comparison (keyword_at c.keyword r) (keyword_at c.keyword w) ≡ ok false))
unfolding assertion_steps
assertion_steps-Passes r w c location =
    let old = keyword_at c.keyword w in
    let new = keyword_at c.keyword r in
    weaker-Passes _ _ _
      (then-Passes _ _ _ _ (when-Passes ⊥ _ _ (add-Passes _ _))
        (with_value-Passes (λ b. b ≡ true → ⊥) _ _ (λ b. when-Passes ⊥ _ _ (add-Passes _ _))))
      (λ both.
        (is_false (introduced_constraint new old) both.0, compared (c.comparison new old) both.1))
  where
    is_false : (b : Bool) → (b ≡ true → ⊥) → b ≡ false
    is_false b h = ground (arith, h)

    compared : (m : Result Bool) → (b : Bool) × (m ≡ ok b) × (b ≡ true → ⊥) → m ≡ ok false
    compared m (b, e, h) = e ∙ ap ok (is_false b h)

-- a condition of an accepted run
pub accepted : (P : Type 0) (f : Statement) → Passes f P → Accepts (f compatible) → P
unfolding Passes Accepts
accepted P f h (r, e, c) = (h compatible r e c).0

-- neither branch of the check of a keyword
abbrev pub Unrestricted : Members → Members → AssertionCheck → Type 0
Unrestricted r w c =
    (introduced_constraint (keyword_at c.keyword r) (keyword_at c.keyword w) ≡ false)
    × (c.comparison (keyword_at c.keyword r) (keyword_at c.keyword w) ≡ ok false)

pub check_all-Passes :
    (p : Packages)
    → Merges p
    → (checks : List AssertionCheck) (r w : Members) (location : Location)
    → Passes (check_all p checks r w location) (All (Unrestricted r w) checks)
unfolding check_assertion_compatibility
check_all-Passes p merges checks r w location = for_each-Passes _ checks _ (λ c.
    weaker-Passes _ _ _ (merge_result-Passes p merges _)
      (accepted _ (assertion_steps r w c location) (assertion_steps-Passes r w c location)))
