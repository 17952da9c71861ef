-- ===== src/Protobuf/Locks.antt =====
-- The locks of src/karapace/core/protobuf/compare_type_storage.py, and the messages that are not locked
-- yet, of the types that a comparison can come to.
use karapace.Prelude.{
  ℕ, suc, ◌<◌, ◌≤◌, ◌≡◌, refl, ap, subst, inl, inr, true, false, ◌||◌, List, [], ◌∷◌, ◌++◌, arith,
  ==_refl, nat_eq, string_eq, list_eq, Bool-cases, if◌then◌else◌, All,
}
use mathlib.Core.List.{Memᴰ}
use karapace.Protobuf.Elements.{
  Header, header_beq, TypeElement, TypeElements, message_element, enum_element, nil, cons,
  element_beq, elements_beq,
}
use karapace.Protobuf.TypeStorage.{is_locked, without_first}

header_beq_refl : (h : Header) → header_beq h h ≡ true
header_beq_refl h =
    rw (==_refl h.location) (rw (==_refl h.name) (rw (==_refl h.documentation) (==_refl h.options)))

mutual
  unfolding element_beq

  pub element_beq_refl : (t : TypeElement) → element_beq t t ≡ true
  element_beq_refl (message_element h fields one_ofs nested) =
      rw (header_beq_refl h) (elements_beq_refl nested)
  element_beq_refl (enum_element h constants) = header_beq_refl h

  elements_beq_refl : (ts : TypeElements) → elements_beq ts ts ≡ true
  elements_beq_refl nil = refl
  elements_beq_refl (cons t ts) = rw (element_beq_refl t) (elements_beq_refl ts)

-- what is locked after one more lock
pub is_locked-append :
    (t s : TypeElement) (locked : List TypeElement)
    → is_locked t (locked ++ s ∷ []) ≡ (is_locked t locked || element_beq s t)
is_locked-append t s [] = ground arith
is_locked-append t s (u ∷ locked) = ground (arith, is_locked-append t s locked)

-- A lock that is taken is given back, and leaves the others.
pub without_first-lock :
    (t : TypeElement) (locked : List TypeElement)
    → is_locked t locked ≡ false
    → without_first t (locked ++ t ∷ []) ≡ locked
without_first-lock t [] h = rw (element_beq_refl t) refl
without_first-lock t (u ∷ locked) h = elim (Bool-cases (element_beq u t)) [
  | inl e ↦ absurd (ground (arith, h, e))
  | inr e ↦ rw e (ap (λ ts. u ∷ ts) (without_first-lock t locked (ground (arith, h, e))))
]

-- the number of the types that are not locked
abbrev pub unlocked : List TypeElement → List TypeElement → ℕ
unlocked [] locked = 0
unlocked (t ∷ ts) locked =
    let rest = unlocked ts locked in if is_locked t locked then rest else suc rest

unlocked-shrinks :
    (ts locked : List TypeElement) (s : TypeElement)
    → unlocked ts (locked ++ s ∷ []) ≤ unlocked ts locked
unlocked-shrinks [] locked s = omega arith
unlocked-shrinks (t ∷ ts) locked s =
    ground (arith, unlocked-shrinks ts locked s, is_locked-append t s locked)

pub unlocked-lock :
    {s : TypeElement} {ts : List TypeElement} (locked : List TypeElement)
    → Memᴰ s ts
    → is_locked s locked ≡ false
    → unlocked ts (locked ++ s ∷ []) < unlocked ts locked
unlocked-lock {s = s} {ts = []} locked m h = elim m [ ]
unlocked-lock {s = s} {ts = t ∷ ts} locked (Memᴰ.head e) h =
    let free : is_locked t locked ≡ false = subst (λ u. is_locked u locked ≡ false) e h in
    let taken : element_beq s t ≡ true =
      subst (λ u. element_beq s u ≡ true) e (element_beq_refl s) in
    ground (arith, free, taken, is_locked-append t s locked, unlocked-shrinks ts locked s)
unlocked-lock {s = s} {ts = t ∷ ts} locked (Memᴰ.tail m) h =
    ground (arith, unlocked-lock locked m h, is_locked-append t s locked)

-- a type and all types in it
unfoldable mutual
  pub inner : TypeElement → List TypeElement
  inner (message_element h fields one_ofs nested) =
      message_element h fields one_ofs nested ∷ inner_all nested
  inner (enum_element h constants) = enum_element h constants ∷ []

  pub inner_all : TypeElements → List TypeElement
  inner_all nil = []
  inner_all (cons t ts) = inner t ++ inner_all ts

-- a type that stands in a list with all types in it
abbrev pub Within : List TypeElement → TypeElement → Type 0
Within ts t = All (λ u. Memᴰ u ts) (inner t)

abbrev pub AllWithin : List TypeElement → TypeElements → Type 0
AllWithin ts nested = All (λ u. Memᴰ u ts) (inner_all nested)
