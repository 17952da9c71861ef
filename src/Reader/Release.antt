-- ===== src/Reader/Release.antt =====
-- Who waits for an offset, and the loop over messages that reports it.
use karapace.Prelude.{ℕ, ◌≡◌, Bool, true, false, Option, some, String, arith, int_max-leb}
use karapace.Outcome.{invalid_schema, invalid_version, type_error, Result, ok, err}
use karapace.Messages.{JsonObject}
use karapace.KeyFormat.{KeyMode}
use karapace.Offsets.{offset_seen, is_seen}
use karapace.Reader.Handlers.{Services, Core, handle_msg}
use karapace.Reader.Consume.{
  RawMessage, Decoded, object, nothing, empty_text, other, Reader, Step, KeyRead, skipped, no_key,
  invalid_json, unauthorized, failed, read, read_key, mode_of_key, next_mode, payload_of,
  after_handling, handle_error, consume_value, consume_read, consume_message,
}

uncounted : (strict : Bool) (r : Reader) (m : KeyMode) → ¬ ((handle_error strict r).0 ≡ ok (some m))
uncounted true r m h = cc
uncounted false r m h = cc

-- the step counts a message, and then the watcher has seen its offset
abbrev Releases : RawMessage → KeyMode → Step → Type 0
Releases msg m step = step.0 ≡ ok (some m) → is_seen msg.offset step.1.greatest_offset ≡ true

module _ (strict : Bool) (msg : RawMessage) (mode m : KeyMode) (r : Reader)
    (ready : r.ready ≡ true) where
  after_handling-Releases :
      (out : Result (Unit {0}) × Core) → Releases msg m (after_handling strict true msg mode r out)
  unfolding offset_seen is_seen
  after_handling-Releases (ok u, core) h = rw ready (int_max-leb r.greatest_offset msg.offset).1
  after_handling-Releases (err invalid_schema, core) h = absurd (uncounted strict _ m h)
  after_handling-Releases (err invalid_version, core) h = absurd (uncounted strict _ m h)
  after_handling-Releases (err type_error, core) h = absurd (uncounted strict _ m h)
  after_handling-Releases (err x, core) h = cc

module _ {S : Type 0} (services : Services S) (json_decode : String → Option Decoded) (fuel : ℕ)
    (strict : Bool) (msg : RawMessage) (m : KeyMode) (r : Reader) (ready : r.ready ≡ true) where
  consume_value-Releases :
      (key : JsonObject) (payload : Result (Option JsonObject))
      → Releases msg m (
          consume_value services json_decode fuel strict true msg key
            (record r { key_mode = next_mode r.key_mode (mode_of_key key) })
            payload)
  consume_value-Releases key (err x) h = absurd (uncounted strict _ m h)
  consume_value-Releases key (ok payload) h =
      after_handling-Releases strict msg (mode_of_key key) m
        (record r { key_mode = next_mode r.key_mode (mode_of_key key) }) ready
        (handle_msg services fuel key payload r.core) h

  consume_read-Releases :
      (k : KeyRead) → Releases msg m (consume_read services json_decode fuel strict true msg r k)
  consume_read-Releases skipped h = cc
  consume_read-Releases no_key h = absurd (uncounted strict _ m h)
  consume_read-Releases invalid_json h = absurd (uncounted strict _ m h)
  consume_read-Releases unauthorized h = absurd (ground arith)
  consume_read-Releases failed h = cc
  consume_read-Releases (read (object key)) h =
      consume_value-Releases key (payload_of json_decode msg.value) h
  consume_read-Releases (read nothing) h = cc
  consume_read-Releases (read empty_text) h = cc
  consume_read-Releases (read other) h = cc

  -- Once the reader is ready and watches offsets, a message that is counted as processed releases
  -- those who wait for its offset.
  pub consume_message-releases :
      (consume_message services json_decode fuel strict true msg r).0 ≡ ok (some m)
      → is_seen msg.offset
          (consume_message services json_decode fuel strict true msg r).1.greatest_offset
        ≡ true
  unfolding consume_message
  consume_message-releases = consume_read-Releases (read_key json_decode msg)
