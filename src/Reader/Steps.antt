-- ===== src/Reader/Steps.antt =====
-- What one message does to the state of the reader.
use karapace.Prelude.{
  ℕ, ◌≡◌, refl, ◌∙◌, Bool, true, false, ◌&&◌, Option, String, int_leb, int_leb_refl, int_max-leb,
  inl, inr, Bool-cases, string_eq, if◌then◌else◌,
}
use karapace.Outcome.{invalid_schema, invalid_version, type_error, Result, ok, err}
use karapace.Messages.{JsonObject}
use karapace.KeyFormat.{KeyMode, canonical, deprecated_karapace, is_key_in_canonical_format}
use karapace.Offsets.{offset_seen}
use karapace.Database.Invariant.{IsWellFormed}
use karapace.Reader.Handlers.{Services, Core, handle_msg}
use karapace.Reader.Invariant.{handle_msg-IsWellFormed}
use karapace.Reader.Consume.{
  RawMessage, Decoded, object, nothing, empty_text, other, Reader, KeyRead, skipped, no_key,
  invalid_json, unauthorized, failed, read, read_key, mode_of_key, next_mode, payload_of,
  report_offset, after_handling, handle_error, consume_value, consume_read, consume_message,
}

-- whether the loop gets as far as moving the offset: there is no error of Kafka, and the key is not
-- JSON of another kind than an object
abbrev pub moves : KeyRead → Bool
moves unauthorized = false
moves failed = false
moves (read (object key)) = true
moves (read _) = false
moves _ = true

-- whether a key does not ask for the mode DEPRECATED_KARAPACE
abbrev pub keeps_canonical : KeyRead → Bool
keeps_canonical (read (object key)) = is_key_in_canonical_format key
keeps_canonical _ = true

handle_error-state : (strict : Bool) (r : Reader) → (handle_error strict r).1 ≡ r
handle_error-state true r = refl
handle_error-state false r = refl

-- What a message leaves of the state: its offset, the key mode, and a greatest offset that only grows
abbrev Leaves : RawMessage → Core → KeyMode → Reader → Reader → Type 0
Leaves msg core mode before after =
    (after.core ≡ core)
    × (after.offset ≡ msg.offset)
    × (after.key_mode ≡ mode)
    × (int_leb before.greatest_offset after.greatest_offset ≡ true)

module _ (strict watch : Bool) (msg : RawMessage) (mode : KeyMode) (r : Reader) where
  report_offset-Leaves :
      (core : Core)
      → Leaves msg core r.key_mode r
          (report_offset watch (record r { core = core; offset = msg.offset }))
  unfolding offset_seen
  report_offset-Leaves core = elim (Bool-cases (r.ready && watch)) [
    | inl e ↦ rw e (refl, refl, refl, (int_max-leb r.greatest_offset msg.offset).0)
    | inr e ↦ rw e (refl, refl, refl, int_leb_refl r.greatest_offset)
  ]

  after_handling-Leaves :
      (out : Result (Unit {0}) × Core)
      → Leaves msg out.1 r.key_mode r (after_handling strict watch msg mode r out).1
  after_handling-Leaves (ok u, core) = report_offset-Leaves core
  after_handling-Leaves (err invalid_schema, core) =
      rw handle_error-state (refl, refl, refl, int_leb_refl r.greatest_offset)
  after_handling-Leaves (err invalid_version, core) =
      rw handle_error-state (refl, refl, refl, int_leb_refl r.greatest_offset)
  after_handling-Leaves (err type_error, core) =
      rw handle_error-state (refl, refl, refl, int_leb_refl r.greatest_offset)
  after_handling-Leaves (err x, core) = (refl, refl, refl, int_leb_refl r.greatest_offset)

-- The state after a message whose key came to `k`.
pub record Advances (hash : String → String) (msg : RawMessage) (k : KeyRead) (r r' : Reader)
    : Type 0 where
  pub database : IsWellFormed hash r'.core.database
  pub offset : r'.offset ≡ (if moves k then msg.offset else r.offset)
  pub key_mode : r'.key_mode ≡ (if keeps_canonical k then r.key_mode else deprecated_karapace)
  pub greatest : int_leb r.greatest_offset r'.greatest_offset ≡ true

-- the reader with nothing but another offset and key mode
unread-Advances :
    (hash : String → String) (msg : RawMessage) (k : KeyRead) (r r' : Reader)
    → IsWellFormed hash r.core.database
    → r'.core ≡ r.core
    → r'.greatest_offset ≡ r.greatest_offset
    → r'.offset ≡ (if moves k then msg.offset else r.offset)
    → r'.key_mode ≡ (if keeps_canonical k then r.key_mode else deprecated_karapace)
    → Advances hash msg k r r'
unread-Advances hash msg k r r' w same still offset mode = record {
  database = rw same w;
  offset = offset;
  key_mode = mode;
  greatest = rw still (int_leb_refl r.greatest_offset);
}

next_mode-of_key :
    (mode : KeyMode) (key : JsonObject)
    → next_mode mode (mode_of_key key)
      ≡ (if is_key_in_canonical_format key then mode else deprecated_karapace)
next_mode-of_key canonical key = elim (Bool-cases (is_key_in_canonical_format key)) [
  | inl e ↦ rw e refl
  | inr e ↦ rw e refl
]
next_mode-of_key deprecated_karapace key = elim (Bool-cases (is_key_in_canonical_format key)) [
  | inl e ↦ rw e refl
  | inr e ↦ rw e refl
]

module _ {S : Type 0} (services : Services S) (json_decode : String → Option Decoded) (fuel : ℕ)
    (strict watch : Bool) where
  consume_value-Advances :
      (msg : RawMessage) (key : JsonObject) (r : Reader) (payload : Result (Option JsonObject))
      → IsWellFormed services.hash r.core.database
      → Advances services.hash msg
          (read (object key))
          r
          (consume_value services json_decode fuel strict watch msg key
            (record r { key_mode = next_mode r.key_mode (mode_of_key key) })
            payload).1
  consume_value-Advances msg key r (err x) w = rw handle_error-state (
      unread-Advances services.hash msg (read (object key)) r _ w refl refl refl
        (next_mode-of_key r.key_mode key))
  consume_value-Advances msg key r (ok payload) w =
      let r1 = record r { key_mode = next_mode r.key_mode (mode_of_key key) } in
      let out = handle_msg services fuel key payload r.core in
      let (core, offset, mode, grows) =
        after_handling-Leaves strict watch msg (mode_of_key key) r1 out in
      record {
        database = rw core (handle_msg-IsWellFormed services r.core w fuel key payload);
        offset = offset;
        key_mode = mode ∙ next_mode-of_key r.key_mode key;
        greatest = grows;
      }

  consume_read-Advances :
      (msg : RawMessage) (r : Reader) (k : KeyRead)
      → IsWellFormed services.hash r.core.database
      → Advances services.hash msg k r
          (consume_read services json_decode fuel strict watch msg r k).1
  consume_read-Advances msg r skipped w =
      unread-Advances services.hash msg skipped r _ w refl refl refl refl
  consume_read-Advances msg r no_key w =
      rw handle_error-state (unread-Advances services.hash msg no_key r _ w refl refl refl refl)
  consume_read-Advances msg r invalid_json w =
      rw handle_error-state
        (unread-Advances services.hash msg invalid_json r _ w refl refl refl refl)
  consume_read-Advances msg r unauthorized w = elim (Bool-cases strict) [
    | inl e ↦ rw e (unread-Advances services.hash msg unauthorized r _ w refl refl refl refl)
    | inr e ↦ rw e (unread-Advances services.hash msg unauthorized r _ w refl refl refl refl)
  ]
  consume_read-Advances msg r failed w =
      unread-Advances services.hash msg failed r _ w refl refl refl refl
  consume_read-Advances msg r (read (object key)) w =
      consume_value-Advances msg key r (payload_of json_decode msg.value) w
  consume_read-Advances msg r (read nothing) w =
      unread-Advances services.hash msg (read nothing) r _ w refl refl refl refl
  consume_read-Advances msg r (read empty_text) w =
      unread-Advances services.hash msg (read empty_text) r _ w refl refl refl refl
  consume_read-Advances msg r (read other) w =
      unread-Advances services.hash msg (read other) r _ w refl refl refl refl

  -- Each message, from a well-formed database and whatever its outcome: the database stays so; the offset becomes the
  -- message's, unless Kafka reports an error or the key is JSON but no object, and then stays; the key
  -- mode becomes DEPRECATED_KARAPACE for an object that is not in canonical format, and else stays; the
  -- greatest offset that the watcher has seen does not shrink.
  pub consume_message-Advances :
      (msg : RawMessage) (r : Reader)
      → IsWellFormed services.hash r.core.database
      → Advances services.hash msg
          (read_key json_decode msg)
          r
          (consume_message services json_decode fuel strict watch msg r).1
  unfolding consume_message
  consume_message-Advances msg r w = consume_read-Advances msg r (read_key json_decode msg) w
