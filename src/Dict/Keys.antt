-- ===== src/Dict/Keys.antt =====
-- A dictionary has each key once; the operations keep this.
use karapace.Prelude.{◌≡◌, refl, none, some, [], ◌∷◌, arith, Eq}
use karapace.Dict.Laws.{Dict, get, set, pop, get-set, get-pop}

module _ {ℓ} {K V : Type ℓ} ⦃e : Eq K⦄ where
  abbrev pub HasUniqueKeys : Dict K V → Type ℓ
  HasUniqueKeys [] = Unit
  HasUniqueKeys ((k, v) ∷ d) = (get k d ≡ none) × HasUniqueKeys d

  pub set-HasUniqueKeys :
      (k : K) (v : V) (d : Dict K V) → HasUniqueKeys d → HasUniqueKeys (set k v d)
  unfolding get set
  set-HasUniqueKeys k v [] h = (refl, tt)
  set-HasUniqueKeys k v ((j, w) ∷ d) h =
      ground (arith, set-HasUniqueKeys k v d h.1, get-set k j v d, e.beq_iff k j, e.beq_iff j k)

  pub pop-HasUniqueKeys : (k : K) (d : Dict K V) → HasUniqueKeys d → HasUniqueKeys (pop k d)
  unfolding get pop
  pop-HasUniqueKeys k [] h = tt
  pop-HasUniqueKeys k ((j, w) ∷ d) h =
      ground (arith, pop-HasUniqueKeys k d h.1, get-pop k j d, e.beq_iff k j, e.beq_iff j k)

  -- A property of every entry, by lookup.
  abbrev pub Every {κ} : (K → V → Type κ) → Dict K V → Type (ℓ ⊔ κ)
  Every P d = (k : K) (v : V) → get k d ≡ some v → P k v
