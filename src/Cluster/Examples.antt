-- ===== src/Cluster/Examples.antt =====
-- A check of two peers, one of which is down.
use shc.Base.{◌≡◌, String, List, [], ◌∷◌, none, some, In, if◌then◌else◌, holds, text_discrete}
use shc.Base.Int.{pos}
use shc.Base.GoMap.{text_comparable, lookup}
use shc.Http.{Network, answered, no_response}
use shc.Cluster.{
  InternalHealth, PeerStatus, PeerManager, Surroundings, check_all_peers, get_peers_status,
}
use shc.Cluster.Reports.{IsReport, check_all_peers-IsReport}

abbrev peer_list : List String
peer_list = "http://n2" ∷ "http://n3" ∷ []

abbrev manager : PeerManager
manager = record {
  self_node_id = "n1";
  self_addr = "http://n1";
  peers = peer_list;
  timeout = pos 2;
  peer_states = [];
}

-- n2 answers the first request and not the second, and n3 neither.
abbrev first_answer : Network InternalHealth
first_answer url =
    if holds (text_discrete url "http://n2/internal/health")
    then answered 200 (
        some (record {
          status = "UP";
          node_id = "n2";
          state = "ALIVE";
          addr = "http://n2";
          primary_keys = 1;
          replica_keys = 0;
          hit_count = 4;
          uptime_seconds = 9;
        }))
    else no_response

abbrev surroundings : Surroundings
surroundings = record {
  health = first_answer;
  stats = λ url. no_response;
  latency = λ p. 3;
  clock = λ p. 60;
}

check_all_peers-IsReport_example :
    let (pm', results) = check_all_peers manager peer_list surroundings in
    (In "http://n2" peer_list
      → (s : PeerStatus) × (lookup "http://n2" results ≡ some s)
        × (lookup "http://n2" (get_peers_status pm') ≡ some s)
        × IsReport surroundings "http://n2" s)
    × (¬ In "http://n2" peer_list
        → (lookup "http://n2" results ≡ none)
          × (lookup "http://n2" (get_peers_status pm')
              ≡ lookup "http://n2" (get_peers_status manager)))
check_all_peers-IsReport_example =
    check_all_peers-IsReport manager peer_list surroundings "http://n2" tt
      (λ q. ((λ i. i), (λ i. i)))
