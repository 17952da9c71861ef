-- ===== src/KeyFormat/Canonical.antt =====
-- What the canonical format of a key keeps, and which keys have one.
use karapace.Prelude.{
  ◌≡◌, refl, true, false, Option, none, some, arith, is_some, ◌&&◌, not, string_eq,
}
use karapace.Dict.{get}
use karapace.Outcome.{ok}
use karapace.Messages.{Json, JsonObject}
use karapace.KeyFormat.{canonical, is_key_in_canonical_format, format_key, format_entries}

-- The key is recognised as canonical, and has these entries under the four names and no other.
pub record IsCanonicalOf (k : Json) (s v : Option Json) (m : Json) (out : JsonObject) : Type 0 where
  pub recognised : is_key_in_canonical_format out ≡ true
  pub keytype_kept : get "keytype" out ≡ some k
  pub subject_kept : get "subject" out ≡ s
  pub version_kept : get "version" out ≡ v
  pub magic_kept : get "magic" out ≡ some m

-- the canonical form of four entries, whose subject is there if the version is
canonical_form :
    (k : Json) (s v : Option Json) (m : Json)
    → (is_some v && not (is_some s)) ≡ false
    → (out : JsonObject) × (format_entries k s v m ≡ ok out) × IsCanonicalOf k s v m out
unfolding format_entries is_key_in_canonical_format get
canonical_form k none none m h = (
  _,
  refl,
  record {
    recognised = refl;
    keytype_kept = refl;
    subject_kept = refl;
    version_kept = refl;
    magic_kept = refl;
  },
)
canonical_form k (some s) none m h = (
  _,
  refl,
  record {
    recognised = refl;
    keytype_kept = refl;
    subject_kept = refl;
    version_kept = refl;
    magic_kept = refl;
  },
)
canonical_form k (some s) (some v) m h = (
  _,
  refl,
  record {
    recognised = refl;
    keytype_kept = refl;
    subject_kept = refl;
    version_kept = refl;
    magic_kept = refl;
  },
)
canonical_form k none (some v) m h = absurd (ground arith)

-- In the canonical mode a key that has the entries `keytype` and `magic`, and `subject` if it has
-- `version`, is formatted without an error: what comes out is recognised as canonical, and has the
-- entries of the given key under the four names.
pub format_key-canonical :
    (key : JsonObject) (k m : Json)
    → get "keytype" key ≡ some k
    → get "magic" key ≡ some m
    → (is_some (get "version" key) && not (is_some (get "subject" key))) ≡ false
    → (out : JsonObject) × (format_key canonical key ≡ ok out)
      × IsCanonicalOf k (get "subject" key) (get "version" key) m out
unfolding format_key
format_key-canonical key k m hk hm there =
    let (out, done, form) = canonical_form k (get "subject" key) (get "version" key) m there in
    (out, rw hk (rw hm done), form)
