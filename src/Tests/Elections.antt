-- ===== src/Tests/Elections.antt =====
-- An election.
use karapace.Prelude.{pos, refl, ◌≡◌, ◌≤◌, ◌<◌, ◌+◌, true, false}
use karapace.Election.{
  MemberAssignment, Coordinator, new_coordinator, on_join_complete, are_we_master, caught_up,
}
use karapace.Election.Waits.{on_join_complete-waits}

abbrev assignment : MemberAssignment
assignment = record {
  master = "first";
  master_identity = record {
    host = "first";
    port = pos 8081;
    scheme = "http";
    master_eligibility = true;
  };
}

abbrev member : Coordinator
member = new_coordinator 5000 true

on_join_complete-waits_example :
    (let joined = on_join_complete 100 "first" assignment member in
      let asked = are_we_master 6000 (caught_up joined) in
      ((are_we_master 6000 joined).0 ≡ false)
      × (6000 ≤ 100 + 5000 → asked ≡ (false, caught_up joined))
      × (100 + 5000 < 6000
          → (asked.0 ≡ false)
            × ((are_we_master 6001 asked.1).0 ≡ false)
            × ((are_we_master 6001 (caught_up asked.1)).0 ≡ true)))
on_join_complete-waits_example =
    on_join_complete-waits 100 6000 6001 "first" assignment member refl refl refl
