-- ===== src/Dict/Laws.antt =====
-- The operations of a dictionary, and their laws in `if` form.
use karapace.Prelude.{
  ◌≡◌, refl, ◌≢◌, Bool, Option, none, some, List, [], ◌∷◌, map, arith, Eq, ==_refl, is_some,
  if◌then◌else◌,
}

abbrev pub Dict {ℓ} : Type ℓ → Type ℓ → Type ℓ
Dict K V = List (K × V)

module _ {ℓ} {K V : Type ℓ} where
  -- `d.keys()`, `d.values()`
  abbrev pub keys : Dict K V → List K
  keys = map (λ e. e.0)

  abbrev pub values : Dict K V → List V
  values = map (λ e. e.1)

module _ {ℓ} {K V : Type ℓ} ⦃e : Eq K⦄ where
  -- `d.get(k)`
  unfoldable pub get : K → Dict K V → Option V
  get k [] = none
  get k ((j, v) ∷ d) = if e.beq j k then some v else get k d

  -- `k in d`
  abbrev pub contains : K → Dict K V → Bool
  contains k d = is_some (get k d)

  -- `d[k] = v`
  unfoldable pub set : K → V → Dict K V → Dict K V
  set k v [] = (k, v) ∷ []
  set k v ((j, w) ∷ d) = if e.beq j k then (j, v) ∷ d else (j, w) ∷ set k v d

  -- `d.pop(k, None)` and `del d[k]`
  unfoldable pub pop : K → Dict K V → Dict K V
  pop k [] = []
  pop k ((j, w) ∷ d) = let rest = pop k d in if e.beq j k then rest else (j, w) ∷ rest

  -- `d.setdefault(k, v)`, the dictionary part
  abbrev pub set_default : K → V → Dict K V → Dict K V
  set_default k v d = if contains k d then d else set k v d

  pub get-set :
      (k j : K) (v : V) (d : Dict K V) → get j (set k v d) ≡ (if e.beq k j then some v else get j d)
  unfolding get set
  get-set k j v [] = refl
  get-set k j v ((i, w) ∷ d) =
      ground (arith, get-set k j v d, e.beq_iff k j, e.beq_iff i k, e.beq_iff i j)

  pub get-set_self : (k : K) (v : V) (d : Dict K V) → get k (set k v d) ≡ some v
  get-set_self k v d = ground (arith, get-set k k v d, ==_refl k)

  pub get-set_ne : (k j : K) (v : V) (d : Dict K V) → k ≢ j → get j (set k v d) ≡ get j d
  get-set_ne k j v d h = ground (arith, get-set k j v d, e.beq_iff k j)

  pub get-pop : (k j : K) (d : Dict K V) → get j (pop k d) ≡ (if e.beq k j then none else get j d)
  unfolding get pop
  get-pop k j [] = ground arith
  get-pop k j ((i, w) ∷ d) =
      ground (arith, get-pop k j d, e.beq_iff k j, e.beq_iff i k, e.beq_iff i j)

  pub get-pop_self : (k : K) (d : Dict K V) → get k (pop k d) ≡ none
  get-pop_self k d = ground (arith, get-pop k k d, ==_refl k)

  pub get-set_default :
      (k j : K) (v : V) (d : Dict K V)
      → get j (set_default k v d)
        ≡ (if contains k d then get j d else if e.beq k j then some v else get j d)
  get-set_default k j v d = ground (arith, get-set k j v d)
