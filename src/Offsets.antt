-- ===== src/Offsets.antt =====
-- `OffsetWatcher` of src/karapace/core/offset_watcher.py. Its state is the greatest offset, an
-- integer; the condition variable makes each method one step. A caller of `wait_for_offset` is released
-- at a moment when the test below holds, or gets the answer of a last test at its timeout.
use karapace.Prelude.{
  ◌≡◌, Bool, true, List, [], ◌∷◌, ℤ, pos, negsuc, int_leb, int_max, arith, int_max-leb,
  int_leb_trans, int_leb_refl, any_of, ◌||◌,
}

-- `__init__`: before the first message, whose offset is 0
abbrev pub no_offset : ℤ
no_offset = negsuc 0

-- `offset_seen`
unfoldable pub offset_seen : ℤ → ℤ → ℤ
offset_seen greatest new_offset = int_max greatest new_offset

-- the predicate of `wait_for_offset`
unfoldable pub is_seen : ℤ → ℤ → Bool
is_seen expected greatest = int_leb expected greatest

-- the state after a sequence of calls of `offset_seen`
abbrev pub after_seen : ℤ → List ℤ → ℤ
after_seen greatest [] = greatest
after_seen greatest (o ∷ os) = after_seen (offset_seen greatest o) os

grows : (g : ℤ) (os : List ℤ) → int_leb g (after_seen g os) ≡ true
unfolding offset_seen
grows g [] = int_leb_refl g
grows g (o ∷ os) =
    int_leb_trans g (int_max g o) (after_seen (int_max g o) os) (int_max-leb g o).0
      (grows (int_max g o) os)

seen_before :
    (expected g : ℤ) (os : List ℤ)
    → is_seen expected g ≡ true
    → is_seen expected (after_seen g os) ≡ true
unfolding is_seen
seen_before expected g os h = int_leb_trans expected g (after_seen g os) h (grows g os)

max-cases : (e a b : ℤ) → int_leb e (int_max a b) ≡ (int_leb e a || int_leb e b)
max-cases (pos e) (pos a) (pos b) = ground arith
max-cases (negsuc e) (negsuc a) (negsuc b) = ground arith
max-cases _ _ _ = ground arith

-- After any sequence of reported offsets, in whatever order, a waiting caller is released exactly if
-- its offset is at most the greatest one from before or at most one of those reported.
is_seen-after_seen :
    (expected g : ℤ) (os : List ℤ)
    → is_seen expected (after_seen g os)
      ≡ (is_seen expected g || any_of (λ o. int_leb expected o) os)
unfolding is_seen offset_seen
is_seen-after_seen expected g [] = ground arith
is_seen-after_seen expected g (o ∷ os) =
    ground (arith, is_seen-after_seen expected (int_max g o) os, max-cases expected g o)
