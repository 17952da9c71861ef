-- ===== src/Protobuf/Terminates/Drops.antt =====
-- Steps of a comparison of src/karapace/core/protobuf that make it incompatible.
use karapace.Prelude.{
  ℕ, ◌≤◌, ◌≡◌, refl, sym, ap, ◌∙◌, subst, inl, inr, false, Option, none, some, List, [], ◌∷◌, ◌++◌,
  String, arith, string_eq, Eq, Bool-cases, if◌then◌else◌,
}
use mathlib.Core.List.{Memᴰ}
use karapace.Dict.{Dict, get, keys}
use karapace.Outcome.{Finishes, Result, ok, err}
use karapace.Protobuf.Elements.{
  Header, FieldElement, OneOfElement, TypeElement, TypeElements, message_element,
}
use karapace.Protobuf.Locks.{unlocked, Within, AllWithin}
use karapace.Protobuf.Comparison.{
  Modification, message_drop, compatible_modification, compatible_result, ModificationRecord,
  Comparison, Compare, ◌>>◌, for_each, push_canonical, pop_canonical, add_modification,
}
use karapace.Protobuf.Compare.{by_key, chained}
use karapace.Protobuf.Messages.{
  elements, type_name, compare_named, compare_type_lists, add_self_types, add_other_types,
}
use karapace.Protobuf.Terminates.Types.{
  compare_named-Safe, add_self_types-Safe, add_other_types-Safe, by_name-ElementWithin,
}
use karapace.Protobuf.Safe.{
  Inside, Ends, Safe, Any, seq-Safe, for_every-Safe, canonical-Safe, push_canonical-Safe,
  pop_canonical-Safe,
}

-- a step after which the comparison is incompatible, if no error of the code's stops it
abbrev pub SpoilEnds : List TypeElement → ℕ → Result (Unit {0}) × Comparison → Type 0
SpoilEnds us k (ok u, d) =
    Inside us d.self_types
    × unlocked us d.locked_messages ≤ k
    × (compatible_result d.result ≡ false)
SpoilEnds us k (err x, d) = Finishes x

abbrev pub Spoils : List TypeElement → ℕ → Compare (Unit {0}) → Type 0
Spoils us k m =
    (c : Comparison)
    → Inside us c.self_types
    → unlocked us c.locked_messages ≤ k
    → SpoilEnds us k (m c)

compatible_result-spoiled :
    (xs : List ModificationRecord) (r : ModificationRecord)
    → compatible_modification r.modification ≡ false
    → compatible_result (xs ++ r ∷ []) ≡ false
compatible_result-spoiled [] r h = ground (arith, h)
compatible_result-spoiled (x ∷ xs) r h = ground (arith, compatible_result-spoiled xs r h)

-- the key of an entry that is found is among the keys
found-key :
    {K V : Type 0} ⦃e : Eq K⦄ (k : K) (v : V) (d : Dict K V) (rest : List K)
    → get k d ≡ some v
    → Memᴰ k (keys d ++ rest)
unfolding get
found-key k v [] rest h = absurd (ground (arith, h))
found-key ⦃e⦄ k v ((j, w) ∷ d) rest h = elim (Bool-cases (e.beq j k)) [
  | inl same ↦ Memᴰ.head (sym ((e.beq_iff j k).0 same))
  | inr other ↦
      Memᴰ.tail (found-key k v d rest (sym (ap (λ b. if b then some w else get k d) other) ∙ h))
]

-- the type of a name in a list of types: the last one
abbrev pub type_at : String → TypeElements → Option TypeElement
type_at name ts = get name (by_key type_name (elements ts) [])

module _ (us : List TypeElement) (k : ℕ) where
  add_modification-Spoils :
      (m : Modification) → compatible_modification m ≡ false → Spoils us k (add_modification m)
  unfolding add_modification
  add_modification-Spoils m bad c inside h = (inside, h, compatible_result-spoiled c.result _ bad)

  spoil_then-Ends :
      (n : Compare (Unit {0})) (out : Result (Unit {0}) × Comparison) (c : Comparison)
      → SpoilEnds us k out
      → Safe us k Any n
      → SpoilEnds us k (((λ (d : Comparison). out) >> n) c)
  spoil_then-Ends n (err x, d) c e g = e
  spoil_then-Ends n (ok u, d) c (inside, h, spoiled) g = after (n d) (g d inside h)
    where
      after : (out : Result (Unit {0}) × Comparison) → Ends us Any d out → SpoilEnds us k out
      after (err x, e) q = q
      after (ok v, e) (p, i, same, kept) = (i, subst (λ l. unlocked us l ≤ k) (sym same) h, still)
        where
          still : compatible_result e.result ≡ false
          still = elim (Bool-cases (compatible_result e.result)) [
            | inl good ↦ absurd (ground (arith, kept good, spoiled))
            | inr bad ↦ bad
          ]

  spoil_then : (m n : Compare (Unit {0})) → Spoils us k m → Safe us k Any n → Spoils us k (m >> n)
  spoil_then m n hm hn c inside h = spoil_then-Ends n (m c) c (hm c inside h) hn

  then_spoil-Ends :
      (n : Compare (Unit {0})) (out : Result (Unit {0}) × Comparison) (c : Comparison)
      → unlocked us c.locked_messages ≤ k
      → Ends us Any c out
      → Spoils us k n
      → SpoilEnds us k (((λ (d : Comparison). out) >> n) c)
  then_spoil-Ends n (err x, d) c h e g = e
  then_spoil-Ends n (ok u, d) c h (p, inside, same, kept) g =
      g d inside (subst (λ l. unlocked us l ≤ k) (sym same) h)

  then_spoil : (m n : Compare (Unit {0})) → Safe us k Any m → Spoils us k n → Spoils us k (m >> n)
  then_spoil m n hm hn c inside h = then_spoil-Ends n (m c) c h (hm c inside h) hn

  for_each-Spoils :
      {A : Type 0} (x : A) (xs : List A) (f : A → Compare (Unit {0}))
      → Memᴰ x xs
      → ((a : A) → Safe us k Any (f a))
      → Spoils us k (f x)
      → Spoils us k (for_each xs f)
  for_each-Spoils x [] f m h g = elim m [ ]
  for_each-Spoils x (a ∷ xs) f (Memᴰ.head e) h g =
      spoil_then (f a) (for_each xs f) (subst (λ b. Spoils us k (f b)) e g)
        (for_every-Safe us k xs f h)
  for_each-Spoils x (a ∷ xs) f (Memᴰ.tail m) h g =
      then_spoil (f a) (for_each xs f) (h a) (for_each-Spoils x xs f m h g)

module _ (us : List TypeElement) (k : ℕ) (visit : TypeElement → TypeElement → Compare (Unit {0}))
    (visit-Safe : (t u : TypeElement) → Within us t → Safe us k Any (visit t u)) where
  dropped-Spoils :
      (a b : Option TypeElement) {h : Header} {fields : List FieldElement}
      {one_ofs : List OneOfElement} {nested : TypeElements}
      → a ≡ some (message_element h fields one_ofs nested)
      → b ≡ none
      → Spoils us k (compare_named visit a b)
  dropped-Spoils a b e f = rw e (rw f (add_modification-Spoils us k message_drop refl))

  pub compare_type_lists-drops :
      (ts others : TypeElements) (name : String) {h : Header} {fields : List FieldElement}
      {one_ofs : List OneOfElement} {nested : TypeElements}
      → AllWithin us ts
      → type_at name ts ≡ some (message_element h fields one_ofs nested)
      → type_at name others ≡ none
      → Spoils us k (compare_type_lists visit ts others)
  unfolding compare_type_lists
  compare_type_lists-drops ts others name ws here gone =
      let self_types = by_key type_name (elements ts) [] in
      let other_types = by_key type_name (elements others) [] in
      let compare_name : String → Compare (Unit {0}) = λ n.
        push_canonical n
        >> compare_named visit (get n self_types) (get n other_types)
        >> pop_canonical in
      then_spoil us k (add_self_types ts >> add_other_types others)
        (for_each (chained self_types other_types) compare_name)
        (seq-Safe us k (add_self_types ts) (add_other_types others) (add_self_types-Safe us k ts ws)
          (add_other_types-Safe us k others))
        (for_each-Spoils us k name (chained self_types other_types) compare_name
          (found-key name _ self_types _ here)
          (λ n. canonical-Safe us k n _ (
            compare_named-Safe us k visit visit-Safe (get n self_types) (get n other_types)
              (by_name-ElementWithin us ts n ws)))
          (spoil_then us k
            (push_canonical name
              >> compare_named visit (get name self_types) (get name other_types))
            pop_canonical
            (then_spoil us k (push_canonical name)
              (compare_named visit (get name self_types) (get name other_types))
              (push_canonical-Safe us k name)
              (dropped-Spoils (get name self_types) (get name other_types) here gone))
            (pop_canonical-Safe us k)))
