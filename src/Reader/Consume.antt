-- ===== src/Reader/Consume.antt =====
-- `consume_messages`, `handle_messages`, `_is_ready` and `highest_offset` of `KafkaSchemaReader`, with
-- `handle_schema_reader_error` of core/kafka_error_handler.py. `json_decode` is a parameter, which gives
-- nothing where it raises JSONDecodeError; the Kafka client gives the messages and the end offset.
use karapace.Prelude.{
  ℕ, zero, suc, get_or, ◌+◌, Bool, true, false, ◌&&◌, Option, none, some, List, [], ◌∷◌, String, ℤ,
  pos, negsuc, int_leb, int_max, string_eq, ◌==◌, if◌then◌else◌,
}
use karapace.Outcome.{
  invalid_schema, invalid_version, type_error, value_error, assertion_error, shutdown,
  corrupt_kafka_record, kafka_error, Result, ok, err,
}
use karapace.Messages.{JsonObject}
use karapace.KeyFormat.{KeyMode, canonical, deprecated_karapace, is_key_in_canonical_format}
use karapace.Offsets.{offset_seen}
use karapace.Reader.Handlers.{Services, Core, handle_msg}

-- What `translate_from_kafkaerror` makes of a message's error, as far as the code tells it apart.
pub data Failure : Type 0 where
  authorization_failed other_failure : Failure

-- a message of the Kafka client
pub record RawMessage : Type 0 where
  pub offset : ℤ
  pub error : Option Failure
  pub key : Option String
  pub value : Option String

-- JSON as `json_decode` gives it, as far as the code tells it apart
pub data Decoded : Type 0 where
  object : JsonObject → Decoded
  nothing empty_text other : Decoded

-- The state of the reader that the methods below read or write. `greatest_offset` is that of its
-- offset watcher, `key_mode` that of its key formatter.
pub record Reader : Type 0 where
  pub core : Core
  pub offset : ℤ
  pub ready : Bool
  pub key_mode : KeyMode
  pub greatest_offset : ℤ
  pub highest_offset : ℤ
  pub max_messages_to_process : ℕ

-- The outcome of one message: the mode of its key, if it is counted as processed.
abbrev pub Step : Type 0
Step = Result (Option KeyMode) × Reader

-- `self.offset = msg.offset()`
abbrev pub move_to : RawMessage → Reader → Reader
move_to msg r = record r { offset = msg.offset }

-- `self.kafka_error_handler.handle_error(location=SCHEMA_READER, …)`, then `continue`
abbrev pub handle_error : Bool → Reader → Step
handle_error strict r = if strict then (err corrupt_kafka_record, r) else (ok none, r)

-- `x is None or x == b""`
abbrev pub is_absent : Option String → Bool
is_absent none = true
is_absent (some s) = s == ""

-- What the first `try` block comes to.
pub data KeyRead : Type 0 where
  skipped no_key invalid_json unauthorized failed : KeyRead
  read : Decoded → KeyRead

abbrev decoded_key : Option Decoded → KeyRead
decoded_key none = invalid_json
decoded_key (some d) = read d

abbrev pub read_key : (String → Option Decoded) → RawMessage → KeyRead
read_key json_decode msg = elim msg.error [
  | some authorization_failed ↦ unauthorized
  | some other_failure ↦ failed
  | none ↦
      if is_absent msg.key && is_absent msg.value
      then skipped
      else elim msg.key [ none ↦ no_key | some k ↦ decoded_key (json_decode k) ]
]

-- `KeyMode.CANONICAL if is_key_in_canonical_format(key) else KeyMode.DEPRECATED_KARAPACE`
abbrev pub mode_of_key : JsonObject → KeyMode
mode_of_key key = if is_key_in_canonical_format key then canonical else deprecated_karapace

-- `if self.key_formatter.get_keymode() == CANONICAL and msg_keymode == DEPRECATED_KARAPACE: …`
abbrev pub next_mode : KeyMode → KeyMode → KeyMode
next_mode canonical deprecated_karapace = deprecated_karapace
next_mode mode _ = mode

-- `_parse_message_value`
abbrev pub parse_message_value : Option Decoded → Result (Option JsonObject)
parse_message_value none = err value_error
parse_message_value (some (object o)) = ok (some o)
parse_message_value (some nothing) = ok none
parse_message_value (some empty_text) = ok none
parse_message_value (some other) = err type_error

abbrev pub payload_of : (String → Option Decoded) → Option String → Result (Option JsonObject)
payload_of json_decode none = ok none
payload_of json_decode (some s) = if s == "" then ok none else parse_message_value (json_decode s)

-- `if self._ready and watch_offsets: self._offset_watcher.offset_seen(self.offset)`
abbrev pub report_offset : Bool → Reader → Reader
report_offset watch_offsets r =
    if r.ready && watch_offsets
    then record r { greatest_offset = offset_seen r.greatest_offset r.offset }
    else r

-- the `try` block around `handle_msg`, and what follows it
abbrev pub after_handling :
    Bool → Bool → RawMessage → KeyMode → Reader → Result (Unit {0}) × Core → Step
after_handling strict watch msg mode r (ok _, core) =
    (ok (some mode), report_offset watch (record r { core = core; offset = msg.offset }))
after_handling strict watch msg mode r (err invalid_schema, core) =
    handle_error strict (record r { core = core; offset = msg.offset })
after_handling strict watch msg mode r (err invalid_version, core) =
    handle_error strict (record r { core = core; offset = msg.offset })
after_handling strict watch msg mode r (err type_error, core) =
    handle_error strict (record r { core = core; offset = msg.offset })
after_handling strict watch msg mode r (err x, core) =
    (err x, record r { core = core; offset = msg.offset })

-- the two counters
abbrev pub count : Option KeyMode → ℕ × ℕ → ℕ × ℕ
count none n = n
count (some canonical) (a, b) = (a + 1, b)
count (some deprecated_karapace) (a, b) = (a, b + 1)

-- an exception leaves the loop
abbrev pub until_error :
    (Option KeyMode → Reader → Result (ℕ × ℕ) × Reader) → Step → Result (ℕ × ℕ) × Reader
until_error rest (ok m, r) = rest m r
until_error rest (err x, r) = (err x, r)

module _ {S : Type 0} (services : Services S) (json_decode : String → Option Decoded) (fuel : ℕ)
    (strict watch_offsets : Bool) where
  -- the part of the loop's body after the key
  abbrev pub consume_value : RawMessage → JsonObject → Reader → Result (Option JsonObject) → Step
  consume_value msg key r (err x) = handle_error strict (move_to msg r)
  consume_value msg key r (ok payload) =
      after_handling strict watch_offsets msg (mode_of_key key) r
        (handle_msg services fuel key payload r.core)

  -- the body of the loop
  abbrev pub consume_read : RawMessage → Reader → KeyRead → Step
  consume_read msg r skipped = (ok none, move_to msg r)
  consume_read msg r no_key = handle_error strict (move_to msg r)
  consume_read msg r invalid_json = handle_error strict (move_to msg r)
  consume_read msg r unauthorized = if strict then (err shutdown, r) else (ok none, r)
  consume_read msg r failed = (err kafka_error, r)
  consume_read msg r (read (object key)) =
      consume_value msg key (record r { key_mode = next_mode r.key_mode (mode_of_key key) })
        (payload_of json_decode msg.value)
  consume_read msg r (read _) = (err assertion_error, r)

  unfoldable pub consume_message : RawMessage → Reader → Step
  consume_message msg r = consume_read msg r (read_key json_decode msg)

  -- `consume_messages`, from the counters so far; it gives back those that it reports
  unfoldable pub consume_messages : List RawMessage → ℕ × ℕ → Reader → Result (ℕ × ℕ) × Reader
  consume_messages [] n r = (ok n, r)
  consume_messages (msg ∷ msgs) n r =
      until_error (λ m r'. consume_messages msgs (count m n) r') (consume_message msg r)

-- `end_offset - 1`
abbrev pub last_offset : ℕ → ℤ
last_offset zero = negsuc 0
last_offset (suc n) = pos n

-- `MAX_MESSAGES_TO_CONSUME_AFTER_STARTUP`
abbrev pub max_after_startup : ℕ
max_after_startup = 1

-- `_is_ready`: the client gives the end offset, or an exception after which the reader is not ready
unfoldable pub is_ready : Option ℕ → Reader → Bool × Reader
is_ready none r = (false, r)
is_ready (some end_offset) r =
    let highest = last_offset end_offset in
    if int_leb highest r.offset
    then (true, record r { highest_offset = highest; max_messages_to_process = max_after_startup })
    else (false, record r { highest_offset = highest })

-- `_update_is_ready_flag`
unfoldable pub update_is_ready_flag : Option ℕ → Reader → Reader
unfolding is_ready
update_is_ready_flag end_offset r =
    let (ready, r') = is_ready end_offset r in if r.ready then r else record r' { ready = ready }

-- `highest_offset`
unfoldable pub highest_known : Reader → ℤ
highest_known r = int_max r.highest_offset r.greatest_offset

-- `handle_messages`, with the messages that the client gives; `primary` is what the coordinator says
unfoldable pub handle_messages :
    {S : Type 0}
    → Services S
    → (String → Option Decoded)
    → ℕ
    → Bool
    → Option Bool
    → Option ℕ
    → List RawMessage
    → Reader
    → Result (ℕ × ℕ) × Reader
unfolding consume_messages update_is_ready_flag
handle_messages services json_decode fuel strict primary end_offset msgs r =
    consume_messages services json_decode fuel strict (get_or primary false) msgs (0, 0)
      (update_is_ready_flag end_offset r)
