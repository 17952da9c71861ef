-- ===== src/Reader/Replay.antt =====
-- The reader implements the abstract registry of `View`.
use karapace.Prelude.{
  ℕ, ◌≡◌, inl, inr, refl, ap, ◌∙◌, Bool, true, false, Option, none, some, List, [], ◌∷◌, String,
  arith, string_eq, is_some, map_option, Bool-cases, Option-cases, if◌then◌else◌,
}
use karapace.Dict.{Dict, get}
use karapace.Version.{Version, version_eq}
use karapace.Outcome.{Error, key_error, value_error, Result, ok, err, Result-cases, ◌>>=◌}
use karapace.Schema.{SchemaType, avro, TypedSchema, SchemaVersion, Reference}
use karapace.Database.{find_subject, delete_subject, soft_delete, insert_schema_version}
use karapace.Database.Invariant.{IsWellFormed}
use karapace.Database.Lookup.{
  version_at, version_at-insert, version_at-insert_subject, version_at-put_compatibility,
  version_at-delete_subject,
}
use karapace.Compatibility.{CompatibilityMode}
use karapace.Messages.{
  schema_message, config_message, config_delete_message, delete_subject_message, text_at, int_at,
  bool_or, references_if_any, text_if_any,
}
use karapace.Resolve.{Dependency}
use karapace.Reader.Handlers.{
  discard, on_database, Services, Core, handle_msg, handle_config, insert_of, hard_delete_of,
  delete_subject_of, with_subject,
}
use karapace.Reader.Effects.{init-value}
use karapace.Reader.HardDelete.{handle_msg-hard_delete}
use karapace.Reader.Invariant.{handle_msg-IsWellFormed}
use karapace.Reader.View.{
  View, entry_view, view_of, deleted_up_to, Event, schema_written, version_dropped, subject_deleted,
  level_set, level_dropped, message_of, apply, accepted, replay, apply_accepted,
}

-- A step of the reader is the step of the abstract registry if it is accepted, and else none.
abbrev pub Refines : Event → Core → Result (Unit {0}) × Core → Type 0
Refines e core out =
    (u : String) (w : Version)
    → view_of out.1.database u w
      ≡ (if accepted out.0 then apply e (view_of core.database) else view_of core.database) u w

module _ {S : Type 0} (services : Services S) (fuel : ℕ) (core : Core) where
  insert-Refines :
      (s : String) (t u : TypedSchema) (i : ℕ) (v : Version) (deleted : Bool)
      (refs : Option (List Reference))
      → Refines (schema_written s t i v deleted) core (
        ok tt,
        record core {
          database = insert_schema_version services.hash s i v deleted u refs core.database;
        },
      )
  insert-Refines s t u i v deleted refs a w =
      ground (arith, version_at-insert a w core.database services.hash s i v deleted u refs)

  refused-Refines : (e : Event) (x : Error) → Refines e core (discard services (err x, core))
  refused-Refines e key_error u w = refl
  refused-Refines e value_error u w = refl
  refused-Refines e _ u w = refl

  -- once the text is read: the references resolve or not, and the schema has a normal text or not
  resolved-Refines :
      (s : String) (t : SchemaType) (text : String) (refs : Option (List Reference)) (i : ℕ)
      (v : Version) (deleted : Bool)
      (m : Result (Option (List Reference) × Dict String (Dependency S)))
      → Refines
          (schema_written s
            (record { schema_type = t; schema_str = text; references = refs })
            i
            v
            deleted)
          core
          (discard services (
            on_database core (
              m >>= (λ found. services.normalize t text found.0 found.1 >>= (λ normal. ok (
                insert_schema_version services.hash s i v deleted
                  (record { schema_type = t; schema_str = normal; references = found.0 })
                  found.0
                  core.database))))))
  resolved-Refines s t text refs i v deleted (err x) =
      refused-Refines
        (schema_written s (record { schema_type = t; schema_str = text; references = refs }) i v
          deleted)
        x
  resolved-Refines s t text refs i v deleted (ok found) =
      let schema : TypedSchema = record { schema_type = t; schema_str = text; references = refs } in
      elim (Result-cases (services.normalize t text found.0 found.1)) [
        | inr (x, e) ↦ rw e (refused-Refines (schema_written s schema i v deleted) x)
        | inl (normal, e) ↦ rw e (insert-Refines s schema _ i v deleted found.0)
      ]

  written :
      (s : String) (t : SchemaType) (text : String) (refs : Option (List Reference)) (i : ℕ)
      (v : Version) (deleted : Bool)
      → (let schema : TypedSchema = record {
        schema_type = t;
        schema_str = text;
        references = refs;
      } in
          let m = schema_message s (some schema) i v deleted refs in
          Refines
            (schema_written s schema i v deleted)
            core
            (handle_msg services fuel m.key m.payload core))
  unfolding handle_msg insert_of schema_message text_at int_at bool_or references_if_any get
  written s avro text none i v deleted =
      rw (init-value v) (resolved-Refines s avro text none i v deleted _)
  written s t text (some []) i v deleted =
      rw (init-value v) (resolved-Refines s t text (some []) i v deleted _)
  written s t text refs i v deleted =
      rw (init-value v) (resolved-Refines s t text refs i v deleted _)

  absent :
      (s : String) (w : Version)
      → is_some (find_subject s core.database) ≡ false
      → version_at s w core.database ≡ none
  unfolding find_subject version_at get
  absent s w h = ground arith

  soft_view :
      (w v : Version) (o : Option SchemaVersion)
      → ((x : SchemaVersion) → o ≡ some x → x.version ≡ w)
      → map_option entry_view (map_option (soft_delete v) o)
        ≡ map_option (deleted_up_to v w) (map_option entry_view o)
  soft_view w v none h = refl
  soft_view w v (some x) h = rw (h x refl) refl

  deleted_subject :
      IsWellFormed services.hash core.database
      → (s : String) (v : Version)
      → Refines
          (subject_deleted s v)
          core
          (let m = delete_subject_message s v in handle_msg services fuel m.key m.payload core)
  unfolding handle_msg delete_subject_of delete_subject_message text_at int_at get
  deleted_subject well s v =
      rw (init-value v) (elim (Bool-cases (is_some (find_subject s core.database))) [
        | inr e ↦ rw e (λ u w. ground (arith, absent u w, string_eq.beq_iff s u))
        | inl e ↦ elim (Result-cases (delete_subject services.hash s v core.database)) [
          | inr (x, done) ↦ rw e (rw done (refused-Refines (subject_deleted s v) x))
          | inl (db, done) ↦ rw e (
              rw done (λ u w. ground (
                arith,
                version_at-delete_subject u w core.database services.hash s v done,
                soft_view w v (version_at u w core.database)
                    (λ (x : SchemaVersion) (at : version_at u w core.database ≡ some x).
                      (well.filed u w x at).1),
              )))
        ]
      ])

  drop_nothing :
      (s : String) (i : ℕ) (v : Version) (refs : Option (List Reference))
      → version_at s v core.database ≡ none
      → (let m = schema_message s none i v true refs in
          handle_msg services fuel m.key m.payload core)
        ≡ (ok tt, core)
  unfolding handle_msg hard_delete_of schema_message text_at int_at get version_at
  drop_nothing s i v refs missing =
      rw (init-value v) (elim (Bool-cases (is_some (find_subject s core.database))) [
        | inr e ↦ rw e refl
        | inl e ↦ rw e (rw missing refl)
      ])

  dropped :
      (s : String) (i : ℕ) (v : Version) (refs : Option (List Reference))
      → Refines (version_dropped s i v refs) core (
          let m = schema_message s none i v true refs in
          handle_msg services fuel m.key m.payload core)
  dropped s i v refs = elim (Option-cases (version_at s v core.database)) [
    | inr (x, at) ↦
        let (db, done, finds) = handle_msg-hard_delete services fuel core s v i refs at in
        rw done (λ u w. ground (arith, finds u w))
    | inl none_there ↦
        rw (drop_nothing s i v refs none_there)
          (λ u w. ground (arith, string_eq.beq_iff s u, version_eq.beq_iff v w))
  ]

  with_subject_view :
      (s u : String) (w : Version)
      → version_at u w (with_subject s core).database ≡ version_at u w core.database
  with_subject_view s u w = elim (Bool-cases (is_some (find_subject s core.database))) [
    | inl e ↦ rw e refl
    | inr e ↦ rw e (version_at-insert_subject u w core.database s)
  ]

  configured :
      (level : CompatibilityMode) (s : Option String)
      → Refines
          (level_set level s)
          core
          (let m = config_message level s in handle_msg services fuel m.key m.payload core)
  unfolding handle_msg handle_config config_message text_at text_if_any get
  configured level none u w = refl
  configured level (some s) u w = ap (map_option entry_view) (
      version_at-put_compatibility u w (with_subject s core).database s (some _)
      ∙ with_subject_view s u w)

  unconfigured :
      (s : String)
      → Refines
          (level_dropped s)
          core
          (let m = config_delete_message s in handle_msg services fuel m.key m.payload core)
  unfolding handle_msg handle_config config_delete_message text_at text_if_any get
  unconfigured s u w = ap (map_option entry_view) (
      version_at-put_compatibility u w (with_subject s core).database s none
      ∙ with_subject_view s u w)

  handle_msg-Refines :
      (e : Event)
      → IsWellFormed services.hash core.database
      → Refines e core (let m = message_of e in handle_msg services fuel m.key m.payload core)
  handle_msg-Refines (schema_written s t i v deleted) well =
      written s t.schema_type t.schema_str t.references i v deleted
  handle_msg-Refines (version_dropped s i v refs) well = dropped s i v refs
  handle_msg-Refines (subject_deleted s v) well = deleted_subject well s v
  handle_msg-Refines (level_set level s) well = configured level s
  handle_msg-Refines (level_dropped s) well = unconfigured s

-- equal views stay equal under the same changes
apply-cong :
    (e : Event) {x y : View}
    → ((u : String) (w : Version) → x u w ≡ y u w)
    → (u : String) (w : Version) → apply e x u w ≡ apply e y u w
apply-cong (schema_written s t i v deleted) same u w = rw (same u w) refl
apply-cong (version_dropped s i v refs) same u w = rw (same u w) refl
apply-cong (subject_deleted s v) same u w = rw (same u w) refl
apply-cong (level_set level s) same u w = same u w
apply-cong (level_dropped s) same u w = same u w

apply_accepted-cong :
    (es : List Event) (bs : List Bool) {x y : View}
    → ((u : String) (w : Version) → x u w ≡ y u w)
    → (u : String) (w : Version) → apply_accepted es bs x u w ≡ apply_accepted es bs y u w
apply_accepted-cong [] bs same = same
apply_accepted-cong (e ∷ es) [] same = same
apply_accepted-cong (e ∷ es) (true ∷ bs) same = apply_accepted-cong es bs (apply-cong e same)
apply_accepted-cong (e ∷ es) (false ∷ bs) same = apply_accepted-cong es bs same

-- Replay a log of the registry's messages from a well-formed state: the versions that the database
-- then shows are those of the abstract registry after the changes of the accepted messages, in order.
pub replay-refines :
    {S : Type 0} (services : Services S) (fuel : ℕ) (events : List Event) (core : Core)
    → IsWellFormed services.hash core.database
    → (let out = replay services fuel events core in
        (s : String) (v : Version)
        → view_of out.1.database s v ≡ apply_accepted events out.0 (view_of core.database) s v)
unfolding replay
replay-refines services fuel [] core well s v = refl
replay-refines services fuel (e ∷ es) core well s v =
    let m = message_of e in
    let out = handle_msg services fuel m.key m.payload core in
    let step = handle_msg-Refines services fuel core e well in
    replay-refines services fuel es out.1
      (handle_msg-IsWellFormed services core well fuel m.key m.payload) s v
    ∙ apply_accepted-cong es (replay services fuel es out.1).0 step s v
