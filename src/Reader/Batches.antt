-- ===== src/Reader/Batches.antt =====
-- What a batch of messages does to the state of the reader.
use karapace.Prelude.{
  ℕ, ◌≡◌, refl, Bool, true, Option, List, [], ◌∷◌, String, int_leb, int_leb_refl, int_leb_trans,
  arith, all_of, string_eq, if◌then◌else◌,
}
use karapace.Outcome.{Result, ok, err}
use karapace.KeyFormat.{KeyMode, deprecated_karapace}
use karapace.Database.Invariant.{IsWellFormed}
use karapace.Reader.Handlers.{Services}
use karapace.Reader.Consume.{
  RawMessage, Decoded, Reader, Step, read_key, consume_message, consume_messages, count,
  until_error,
}
use karapace.Reader.Steps.{keeps_canonical, Advances, consume_message-Advances}

module _ {S : Type 0} (services : Services S) (json_decode : String → Option Decoded) (fuel : ℕ)
    (strict watch : Bool) where
  -- the key mode after a batch that is consumed to its end
  abbrev pub KeepsMode : List RawMessage → Reader → Result (ℕ × ℕ) × Reader → Type 0
  KeepsMode msgs r (err x, r') = Unit
  KeepsMode msgs r (ok n, r') = r'.key_mode ≡ (
      if all_of (λ msg. keeps_canonical (read_key json_decode msg)) msgs
      then r.key_mode
      else deprecated_karapace)

  -- what a batch, from a reader on, leaves
  abbrev Holds : Reader → Reader → Type 0
  Holds r r' =
      IsWellFormed services.hash r'.core.database
      × (int_leb r.greatest_offset r'.greatest_offset ≡ true)

  module _ (msg : RawMessage) (r : Reader)
      (rest : Option KeyMode → Reader → Result (ℕ × ℕ) × Reader) where
    until_error-Holds :
        (step : Step)
        → Advances services.hash msg (read_key json_decode msg) r step.1
        → ((m : Option KeyMode) (r1 : Reader)
            → IsWellFormed services.hash r1.core.database
            → Holds r1 (rest m r1).1)
        → Holds r (until_error rest step).1
    until_error-Holds (err x, r1) first next = (first.database, first.greatest)
    until_error-Holds (ok m, r1) first next =
        let (w, grows) = next m r1 first.database in
        (w, int_leb_trans r.greatest_offset r1.greatest_offset _ first.greatest grows)

    later-KeepsMode :
        (msgs : List RawMessage) (out : Result (ℕ × ℕ) × Reader) (r1 : Reader)
        → r1.key_mode
          ≡ (if keeps_canonical (read_key json_decode msg) then r.key_mode else deprecated_karapace)
        → KeepsMode msgs r1 out
        → KeepsMode (msg ∷ msgs) r out
    later-KeepsMode msgs (err x, r') r1 h k = tt
    later-KeepsMode msgs (ok c, r') r1 h k = ground arith

    until_error-KeepsMode :
        (msgs : List RawMessage) (step : Step)
        → Advances services.hash msg (read_key json_decode msg) r step.1
        → ((m : Option KeyMode) (r1 : Reader)
            → IsWellFormed services.hash r1.core.database
            → KeepsMode msgs r1 (rest m r1))
        → KeepsMode (msg ∷ msgs) r (until_error rest step)
    until_error-KeepsMode msgs (err x, r1) first next = tt
    until_error-KeepsMode msgs (ok m, r1) first next =
        later-KeepsMode msgs (rest m r1) r1 first.key_mode (next m r1 first.database)

  -- Whatever a batch holds and wherever it ends, a well-formed database stays so, and the greatest
  -- offset that the watcher has seen does not shrink.
  pub consume_messages-IsWellFormed :
      (msgs : List RawMessage) (n : ℕ × ℕ) (r : Reader)
      → IsWellFormed services.hash r.core.database
      → (let r' = (consume_messages services json_decode fuel strict watch msgs n r).1 in
          IsWellFormed services.hash r'.core.database
          × (int_leb r.greatest_offset r'.greatest_offset ≡ true))
  unfolding consume_messages
  consume_messages-IsWellFormed [] n r w = (w, int_leb_refl r.greatest_offset)
  consume_messages-IsWellFormed (msg ∷ msgs) n r w =
      until_error-Holds msg r _ (consume_message services json_decode fuel strict watch msg r)
        (consume_message-Advances services json_decode fuel strict watch msg r w)
        (λ m r1 w1. consume_messages-IsWellFormed msgs (count m n) r1 w1)

  -- From a well-formed database, a batch that is consumed to its end keeps the key mode if each key
  -- that is an object is in canonical format; else the mode is DEPRECATED_KARAPACE after it.
  pub consume_messages-KeepsMode :
      (msgs : List RawMessage) (n : ℕ × ℕ) (r : Reader)
      → IsWellFormed services.hash r.core.database
      → KeepsMode msgs r (consume_messages services json_decode fuel strict watch msgs n r)
  unfolding consume_messages
  consume_messages-KeepsMode [] n r w = refl
  consume_messages-KeepsMode (msg ∷ msgs) n r w =
      until_error-KeepsMode msg r _ msgs
        (consume_message services json_decode fuel strict watch msg r)
        (consume_message-Advances services json_decode fuel strict watch msg r w)
        (λ m r1 w1. consume_messages-KeepsMode msgs (count m n) r1 w1)
