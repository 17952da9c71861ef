-- ===== src/Protobuf/Check/Verdicts.antt =====
-- The verdict of src/karapace/core/compatibility/protobuf/checks.py, and what a comparison of enums of
-- src/karapace/core/protobuf/enum_element.py comes to.
use karapace.Prelude.{
  ◌≡◌, refl, ap, ◌∙◌, sym, inl, inr, true, false, not, Option, none, some, List, [], ◌∷◌, ◌++◌, map,
  String, arith, select, is_empty, ◌==◌, Bool-cases, string_eq, int_eq,
}
use mathlib.Core.List.{append_assoc, append-nil}
use karapace.Outcome.{ok}
use karapace.Dict.{get}
use karapace.Protobuf.Elements.{EnumConstantElement, TypeElement, message_element, enum_element}
use karapace.Protobuf.Comparison.{
  Modification, ModificationRecord, compatible_modification, compatible_result, Comparison, Compare,
  push_path, pop_path, add_modification, done, enum_constant_add, enum_constant_drop,
  enum_constant_alter, type_alter, ◌>>◌, for_each, but_last,
}
use karapace.Protobuf.Compare.{by_key, chained, compare_enum, compare_constants, str}
use karapace.Protobuf.Check.{Verdict, gather, verdict_of, add_location}

abbrev pub incompatible_records : List ModificationRecord → List ModificationRecord
incompatible_records = select (λ r. not (compatible_modification r.modification))

-- each place once, in the order in which they are first met
abbrev pub places : List ModificationRecord → List String → List String
places [] locations = locations
places (r ∷ records) locations = places records (add_location r.path locations)

gather-eq :
    (records : List ModificationRecord) (found : List Modification) (locations : List String)
    → gather records found locations ≡ record {
      is_compatible = false;
      incompatibilities = found ++ map (λ r. r.modification) (incompatible_records records);
      locations = places (incompatible_records records) locations;
    }
unfolding gather
gather-eq [] found locations = rw (append-nil found) refl
gather-eq (r ∷ records) found locations =
    elim (Bool-cases (compatible_modification r.modification)) [
      | inl e ↦ rw e (gather-eq records found locations)
      | inr e ↦ rw e (
          gather-eq records (found ++ r.modification ∷ []) (add_location r.path locations)
          ∙ ap
              (λ ms. record {
                is_compatible = false;
                incompatibilities = ms;
                locations = places (incompatible_records records) (add_location r.path locations);
              })
              (append_assoc found (r.modification ∷ [])
                (map (λ r'. r'.modification) (incompatible_records records))))
    ]

pub compatible-none :
    (records : List ModificationRecord)
    → compatible_result records ≡ is_empty (incompatible_records records)
compatible-none [] = refl
compatible-none (r ∷ records) = elim (Bool-cases (compatible_modification r.modification)) [
  | inl e ↦ rw e (compatible-none records)
  | inr e ↦ rw e refl
]

of_none :
    (found : List ModificationRecord)
    → is_empty found ≡ true
    → (let none_found : Verdict = record {
      is_compatible = true;
      incompatibilities = [];
      locations = [];
    } in
        none_found ≡ record {
          is_compatible = is_empty found;
          incompatibilities = map (λ r. r.modification) found;
          locations = places found [];
        })
of_none [] h = refl
of_none (r ∷ found) h = ground arith

pub verdict_of-incompatible_records :
    (result : List ModificationRecord)
    → (let found = incompatible_records result in
        verdict_of result ≡ record {
          is_compatible = is_empty found;
          incompatibilities = map (λ r. r.modification) found;
          locations = places found [];
        })
unfolding verdict_of
verdict_of-incompatible_records result = elim (Bool-cases (compatible_result result)) [
  | inl e ↦ rw e (of_none (incompatible_records result) (sym (compatible-none result) ∙ e))
  | inr e ↦ rw e (
      gather-eq result [] []
      ∙ ap
          (λ b. record {
            is_compatible = b;
            incompatibilities = map (λ r. r.modification) (incompatible_records result);
            locations = places (incompatible_records result) [];
          })
          (sym (sym (compatible-none result) ∙ e)))
]

-- what returns, adds modifications that are compatible, and changes nothing else
abbrev pub Harmless : Compare (Unit {0}) → Type 0
Harmless m =
    (c : Comparison)
    → (new : List ModificationRecord) × (m c ≡ (ok tt, record c { result = c.result ++ new }))
      × (compatible_result new ≡ true)

but_last-append : {A : Type 0} (xs : List A) (x : A) → but_last (xs ++ x ∷ []) ≡ xs
but_last-append [] x = refl
but_last-append (y ∷ []) x = refl
but_last-append (y ∷ z ∷ xs) x = ap (λ ys. y ∷ ys) (but_last-append (z ∷ xs) x)

compatible_result-append :
    (xs ys : List ModificationRecord)
    → compatible_result xs ≡ true
    → compatible_result ys ≡ true
    → compatible_result (xs ++ ys) ≡ true
compatible_result-append [] ys h g = g
compatible_result-append (x ∷ xs) ys h g = ground (arith, compatible_result-append xs ys)

done-Harmless : Harmless done
done-Harmless c = ([], ap (λ r. (ok tt, record c { result = r })) (sym (append-nil c.result)), refl)

add_modification-Harmless :
    (m : Modification) → compatible_modification m ≡ true → Harmless (add_modification m)
unfolding add_modification
add_modification-Harmless m h c = (_, refl, rw h refl)

seq-Harmless : (m k : Compare (Unit {0})) → Harmless m → Harmless k → Harmless (m >> k)
seq-Harmless m k hm hk c =
    let (xs, em, cm) = hm c in
    let (ys, ek, ck) = hk (record c { result = c.result ++ xs }) in
    (
      xs ++ ys,
      rw em (ek ∙ ap (λ r. (ok tt, record c { result = r })) (append_assoc c.result xs ys)),
      compatible_result-append xs ys cm ck,
    )

scope-Harmless :
    (name : String) (m : Compare (Unit {0}))
    → Harmless m
    → Harmless (push_path name >> m >> pop_path)
scope-Harmless name m hm c =
    let (xs, em, cm) = hm (record c { path = c.path ++ name ∷ [] }) in
    (
      xs,
      rw em (
          ap (λ p. (ok tt, record c { result = c.result ++ xs; path = p }))
            (but_last-append c.path name)),
      cm,
    )

for_each-Harmless :
    {A : Type 0} (tags : List A) (f : A → Compare (Unit {0}))
    → ((a : A) → Harmless (f a))
    → Harmless (for_each tags f)
for_each-Harmless [] f h = done-Harmless
for_each-Harmless (a ∷ rest) f h =
    seq-Harmless (f a) (for_each rest f) (h a) (for_each-Harmless rest f h)

compare_constants-Harmless : (a b : Option EnumConstantElement) → Harmless (compare_constants a b)
compare_constants-Harmless none b = add_modification-Harmless enum_constant_add refl
compare_constants-Harmless (some a) none = add_modification-Harmless enum_constant_drop refl
compare_constants-Harmless (some a) (some b) = elim (Bool-cases (not (a.name == b.name))) [
  | inl e ↦ rw e (add_modification-Harmless enum_constant_alter refl)
  | inr e ↦ rw e done-Harmless
]

pub compare_enum-Harmless :
    (constants : List EnumConstantElement) (other : TypeElement)
    → Harmless (compare_enum constants other)
unfolding compare_enum
compare_enum-Harmless constants (message_element h fields one_ofs nested) =
    add_modification-Harmless type_alter refl
compare_enum-Harmless constants (enum_element h others) =
    let self_tags = by_key (λ (a : EnumConstantElement). a.tag) constants [] in
    let other_tags = by_key (λ (a : EnumConstantElement). a.tag) others [] in
    for_each-Harmless (chained self_tags other_tags)
      (λ tag.
        push_path (str tag)
        >> compare_constants (get tag self_tags) (get tag other_tags)
        >> pop_path)
      (λ tag.
        scope-Harmless (str tag) (compare_constants (get tag self_tags) (get tag other_tags))
          (compare_constants-Harmless (get tag self_tags) (get tag other_tags)))
