-- ===== src/Election.antt =====
-- src/karapace/core/coordinator/schema_coordinator.py: whether a member of the group may act as the master,
-- from the end of an election on. Times are those of `time.monotonic`, in milliseconds.
pub mod Waits
use Prim.Native.String.{◌++◌}
use karapace.Schema.{show_int}
use karapace.Prelude.{
  ℤ, ℕ, ◌+◌, Bool, true, false, not, ◌&&◌, ◌||◌, Option, none, some, String, string_eq, ◌==◌, ltb,
  if◌then◌else◌,
}

-- `_initial_election_sec`: `None`, infinity, or a time
pub data Wait : Type 0 where
  no_wait forever : Wait
  since : ℕ → Wait

-- `MemberIdentity`, and `MemberAssignment` without its error
pub record MemberIdentity : Type 0 where
  pub host : String
  pub port : ℤ
  pub scheme : String
  pub master_eligibility : Bool

pub record MemberAssignment : Type 0 where
  pub master : String
  pub master_identity : MemberIdentity

unfoldable pub get_member_url : String → String → ℤ → String
unfolding show_int
get_member_url scheme host port = scheme ++ "://" ++ host ++ ":" ++ show_int port

-- the fields of `SchemaCoordinator` that the election reads and writes, and the ready flag of the reader
pub record Coordinator : Type 0 where
  pub waiting_time : ℕ
  pub master_url : Option String
  pub elected : Option Bool
  pub initial_election : Wait
  pub last_time_i_was_leader : Option ℕ
  pub ready : Bool
  pub reader_ready : Bool

-- `__init__`, when the reader's flag is as given
abbrev pub new_coordinator : ℕ → Bool → Coordinator
new_coordinator waiting_time reader_ready = record {
  waiting_time = waiting_time;
  master_url = none;
  elected = some false;
  initial_election = forever;
  last_time_i_was_leader = none;
  ready = false;
  reader_ready = reader_ready;
}

-- `another_master_could_have_been_elected`, or no time at all
abbrev pub change_possible : ℕ → Coordinator → Bool
change_possible now c = elim c.last_time_i_was_leader [
  | none ↦ true
  | some t ↦ ltb (t + c.waiting_time) now
]

-- `_on_join_complete`, at a time
unfoldable pub on_join_complete : ℕ → String → MemberAssignment → Coordinator → Coordinator
unfolding get_member_url
on_join_complete now member_id assignment c =
    let identity = assignment.master_identity in
    let url = get_member_url identity.scheme identity.host identity.port in
    if assignment.master == member_id && identity.master_eligibility
    then (if change_possible now c
        then record c {
          master_url = some url;
          elected = some true;
          reader_ready = false;
          initial_election = since now;
          ready = true;
        }
        else record c { master_url = some url; elected = some true; ready = true })
    else if not identity.master_eligibility
    then record c { master_url = none; elected = some false; ready = true }
    else record c { master_url = some url; elected = some false; ready = true }

-- the branch of an elected master, by its wait
abbrev pub after_wait : ℕ → Wait → Coordinator → Bool × Coordinator
after_wait now no_wait c = (true, c)
after_wait now forever c = (false, c)
after_wait now (since t) c =
    if ltb (t + c.waiting_time) now
    then (false, record c { initial_election = no_wait; reader_ready = false })
    else (false, c)

abbrev pub if_elected : ℕ → Option Bool → Coordinator → Bool × Coordinator
if_elected now none c = (false, c)
if_elected now (some e) c =
    if not c.ready || not c.reader_ready
    then (false, c)
    else if e
    then after_wait now c.initial_election c
    else (false, c)

-- `are_we_master`, at a time
unfoldable pub are_we_master : ℕ → Coordinator → Bool × Coordinator
are_we_master now c = if_elected now c.elected c

-- a time of leadership, before the group is joined again or left
unfoldable pub note_leadership : ℕ → Coordinator → Coordinator
unfolding are_we_master
note_leadership now c =
    let asked = are_we_master now c in
    if asked.0 then record asked.1 { last_time_i_was_leader = some now } else asked.1

-- what `perform_assignment`, and `reset_generation` and `coordinator_dead`, do to the flag
abbrev pub begin_assignment : Coordinator → Coordinator
begin_assignment c = record c { elected = none }

abbrev pub reset_generation : Coordinator → Coordinator
reset_generation c = record c { elected = some false }

-- the reader has read to the end of the topic
abbrev pub caught_up : Coordinator → Coordinator
caught_up c = record c { reader_ready = true }
