-- ===== src/Election/Waits.antt =====
-- A new master waits, and then for its reader, before it acts.
use karapace.Prelude.{
  ℕ, ◌+◌, ◌<◌, ◌≤◌, ◌≡◌, refl, ◌⊎◌, true, false, some, String, string_eq, ◌==◌, arith,
}
use karapace.Election.{
  get_member_url, since, MemberAssignment, Coordinator, change_possible, on_join_complete,
  are_we_master, caught_up,
}

-- the state of a member that has just been elected
abbrev Joined : ℕ → MemberAssignment → Coordinator → Coordinator
Joined start assignment c = record c {
  master_url = some (
      get_member_url assignment.master_identity.scheme assignment.master_identity.host
        assignment.master_identity.port);
  elected = some true;
  reader_ready = false;
  initial_election = since start;
  ready = true;
}

joined_with :
    (start : ℕ) (member_id : String) (assignment : MemberAssignment) (c : Coordinator)
    → assignment.master ≡ member_id
    → assignment.master_identity.master_eligibility ≡ true
    → change_possible start c ≡ true
    → on_join_complete start member_id assignment c ≡ Joined start assignment c
unfolding on_join_complete
joined_with start member_id assignment c same eligible change =
    ground (arith, change, string_eq.beq_iff assignment.master member_id)

-- A member that is elected when another master was possible, with a reader that catches up at once: before
-- the waiting time is over it is no master and waits on, the first time that it is asked afterwards it is
-- none either, but once its reader has caught up again it is the master, at any time.
pub on_join_complete-waits :
    (start now later : ℕ) (member_id : String) (assignment : MemberAssignment) (c : Coordinator)
    → assignment.master ≡ member_id
    → assignment.master_identity.master_eligibility ≡ true
    → change_possible start c ≡ true
    → (let joined = on_join_complete start member_id assignment c in
        let first = are_we_master now (caught_up joined) in
        ((are_we_master now joined).0 ≡ false)
        × (now ≤ start + c.waiting_time → first ≡ (false, caught_up joined))
        × (start + c.waiting_time < now
            → (first.0 ≡ false)
              × ((are_we_master later first.1).0 ≡ false)
              × ((are_we_master later (caught_up first.1)).0 ≡ true)))
unfolding on_join_complete are_we_master
on_join_complete-waits start now later member_id assignment c same eligible change =
    rw (joined_with start member_id assignment c same eligible change)
      (refl, (λ early. ground (arith, early)), λ late. ground (arith, late))

-- A member that is not the one elected, or that is not eligible, is no master until the next election.
pub on_join_complete-refuses :
    (start now : ℕ) (member_id : String) (assignment : MemberAssignment) (c : Coordinator)
    → (assignment.master == member_id) ≡ false
      ⊎ assignment.master_identity.master_eligibility ≡ false
    → (are_we_master now (caught_up (on_join_complete start member_id assignment c))).0 ≡ false
unfolding on_join_complete are_we_master
on_join_complete-refuses start now member_id assignment c other = ground arith
