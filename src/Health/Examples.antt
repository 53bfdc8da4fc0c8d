-- ===== src/Health/Examples.antt =====
-- A node with one peer, and the theorems about the monitor at it.
use shc.Base.{◌≡◌, refl, inr, [], ◌∷◌, some, true, false, arith, text_discrete}
use shc.Base.Int.{pos}
use shc.Base.GoMap.{text_comparable, lookup}
use shc.Health.{
  alive, suspected, failed, MemberInfo, Monitor, no_response, answered, Health, new_member,
  get_node_state, set_node_state_manual, ping_peer,
}
use shc.Health.Detection.{Pings, run, IsVerdict, run-IsVerdict}
use shc.Health.Overrides.{set_node_state_manual-IsHeld, missed_ping_lifts_override}

abbrev peer : MemberInfo
peer = new_member "n2" "http://n2" 5

abbrev monitor : Monitor
monitor = record {
  config = record {
    self_node_id = "n1";
    self_addr = "http://n1";
    peers = ("n2", "http://n2") ∷ [];
    heartbeat_interval = pos 10;
    suspect_timeout = pos 20;
    fail_timeout = pos 40;
  };
  members = ("n1", new_member "n1" "http://n1" 5) ∷ ("n2", peer) ∷ [];
  stopped = false;
  listeners = 1 ∷ [];
}

abbrev report : Health
report = record { primary_keys = pos 3; replica_keys = pos 2; hit_count = 7 }

abbrev pings : Pings
pings =
    (60, "n2", no_response "timeout")
    ∷ (50, "n2", no_response "timeout")
    ∷ (30, "n2", answered 200 "200 OK" (pos 2) report)
    ∷ []

peer-known : lookup "n2" monitor.members ≡ some peer
unfolding lookup text_discrete
peer-known = refl

run-IsVerdict_example :
    (mem : MemberInfo) × (lookup "n2" (run monitor pings).members ≡ some mem)
    × IsVerdict monitor.config "n2" 5 pings mem
run-IsVerdict_example =
    run-IsVerdict monitor "n2" peer 70 pings peer-known refl refl refl
      (omega arith, (omega arith, (omega arith, tt)))

abbrev answers : Pings
answers = (60, "n2", answered 200 "200 OK" (pos 2) report) ∷ []

set_node_state_manual-IsHeld_example :
    get_node_state (run (set_node_state_manual monitor "n2" failed 50).0 answers) "n2" ≡ some failed
set_node_state_manual-IsHeld_example =
    set_node_state_manual-IsHeld monitor "n2" peer 50 answers peer-known (inr refl, tt)

abbrev held_peer : MemberInfo
held_peer = record peer { state = failed; manual_override = true }

abbrev held : Monitor
held = record monitor { members = ("n2", held_peer) ∷ [] }

held-known : lookup "n2" held.members ≡ some held_peer
unfolding lookup text_discrete
held-known = refl

missed_ping_lifts_override_example :
    let m' = (ping_peer held "n2" (no_response "timeout") 30).0 in
    (get_node_state held "n2" ≡ some failed)
    × (get_node_state m' "n2" ≡ some suspected)
    × (get_node_state (ping_peer m' "n2" (answered 200 "200 OK" (pos 2) report) 35).0 "n2"
        ≡ some alive)
missed_ping_lifts_override_example =
    missed_ping_lifts_override held "n2" "timeout" "200 OK" held_peer 30 35 (pos 2) report
      held-known (record { overridden = refl; down = refl }) refl refl
