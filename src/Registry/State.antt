-- ===== src/Registry/State.antt =====
-- The state of the registry, actions on it, and the messages it sends.
use karapace.Prelude.{Bool, true, false, List, [], ◌∷◌, ◌++◌}
use karapace.Outcome.{Error, Result, ok, err}
use karapace.Messages.{Message}
use karapace.Reader.Handlers.{Core}
use karapace.Database.{Database}

pub record Registry : Type 0 where
  pub core : Core
  pub open core use *
  pub sent : List Message

abbrev pub Action : Type 0 → Type 0
Action A = Registry → Result A × Registry

abbrev pub return : {A : Type 0} → A → Action A
return a r = (ok a, r)

abbrev pub raise : {A : Type 0} → Error → Action A
raise x r = (err x, r)

abbrev pub lift : {A : Type 0} → Result A → Action A
lift m r = (m, r)

abbrev continue : {A B : Type 0} → Result A → (A → Action B) → Action B
continue (ok a) f r = f a r
continue (err x) f r = (err x, r)

infixl 5 ◌>>=◌ ◌>>◌
abbrev pub ◌>>=◌ : {A B : Type 0} → Action A → (A → Action B) → Action B
◌>>=◌ m f r = let (a, r') = m r in continue a f r'

abbrev pub ◌>>◌ : {A B : Type 0} → Action A → Action B → Action B
m >> k = m >>= λ _. k

-- what reads the database
abbrev pub asks : {A : Type 0} → (Core → Result A) → Action A
asks f r = (f r.core, r)

abbrev pub gets : {A : Type 0} → (Database → A) → Action A
gets f r = (ok (f r.core.database), r)

-- `if b: raise x`
abbrev pub raise_when : Bool → Error → Action (Unit {0})
raise_when true x = raise x
raise_when false x = return tt

-- `self.producer.send_message`
abbrev pub send : Message → Action (Unit {0})
send m r = (ok tt, record r { sent = r.sent ++ m ∷ [] })

-- `self.database.get_schema_id`, which may raise the global id
abbrev pub changes : {A : Type 0} → (Database → A × Database) → Action A
changes f r =
    let (a, db) = f r.core.database in (ok a, record r { core = record r.core { database = db } })
