-- ===== src/Health/Overrides.antt =====
-- Manual changes of a node's state, and what heartbeats do to them.
use shc.Base.{
  ℕ, ◌≡◌, refl, ap, ◌∙◌, inl, inr, ◌⊎◌, String, [], ◌∷◌, some, true, false, arith, holds,
  text_discrete, Bool-cases,
}
use shc.Base.Int.{ℤ, sub_ℕ, leb_ℤ}
use shc.Base.GoMap.{text_comparable, lookup}
use shc.Base.GoMap.Laws.{lookup-insert_self}
use shc.Health.Detection.{Pings, run, is_answer, pinged, run-config, ping_peer-own, ping_peer-other}
use shc.Health.{
  NodeState, alive, suspected, failed, MemberInfo, Config, Monitor, Probe, Health, no_request,
  no_response, answered, succeed, miss, ping_peer, set_node_state_manual, force_state,
  get_node_state,
}

-- Every ping of the node was answered; the others may have been missed.
abbrev pub AllAnswered : String → Pings → Type 0
AllAnswered key [] = Unit {0}
AllAnswered key ((now, node_id, probe) ∷ older) =
    ((holds (text_discrete node_id key) ≡ false) ⊎ (is_answer probe ≡ true)) × AllAnswered key older

-- Marked FAILED by hand.
pub record IsHeld (mem : MemberInfo) : Type 0 where
  pub overridden : mem.manual_override ≡ true
  pub down : mem.state ≡ failed

pinged-IsHeld :
    (cfg : Config) (mem : MemberInfo) (probe : Probe) (now : ℕ)
    → is_answer probe ≡ true
    → IsHeld mem
    → IsHeld (pinged cfg mem probe now)
unfolding succeed
pinged-IsHeld cfg mem (no_request reason) now a h = absurd (cc)
pinged-IsHeld cfg mem (no_response reason) now a h = absurd (cc)
pinged-IsHeld cfg mem (answered status text latency health) now a h = ground arith

run-IsHeld :
    (m : Monitor) (key : String) (start : MemberInfo) (h : Pings)
    → lookup key m.members ≡ some start
    → IsHeld start
    → AllAnswered key h
    → (mem : MemberInfo) × (lookup key (run m h).members ≡ some mem) × IsHeld mem
unfolding run
run-IsHeld m key start [] e v a = (start, e, v)
run-IsHeld m key start ((now, node_id, probe) ∷ older) e v a =
    let (mem, f, w) = run-IsHeld m key start older e v a.1 in
    elim (Bool-cases (holds (text_discrete node_id key))) [
      | inr p ↦ (mem, ping_peer-other (run m older) node_id key probe now p ∙ f, w)
      | inl p ↦ (
        pinged m.config mem probe now,
        ping_peer-own (run m older) node_id key probe now mem p f
            ∙ ap (λ c. some (pinged c mem probe now)) (run-config m older),
        pinged-IsHeld m.config mem probe now (answers p a.0) w,
      )
    ]
  where
    answers :
        holds (text_discrete node_id key) ≡ true
        → (holds (text_discrete node_id key) ≡ false) ⊎ (is_answer probe ≡ true)
        → is_answer probe ≡ true
    answers p (inl q) = cc
    answers p (inr q) = q

set_node_state_manual-lookup :
    (m : Monitor) (key : String) (s : NodeState) (start : MemberInfo) (now : ℕ)
    → lookup key m.members ≡ some start
    → lookup key (set_node_state_manual m key s now).0.members ≡ some (force_state start s now)
unfolding set_node_state_manual
set_node_state_manual-lookup m key s start now e =
    rw (e, set_node_state_manual) (lookup-insert_self key (force_state start s now) m.members)

force_state-IsHeld : (start : MemberInfo) (now : ℕ) → IsHeld (force_state start failed now)
unfolding force_state
force_state-IsHeld start now = record { overridden = refl; down = refl }

-- A registered node that is marked FAILED by hand stays FAILED as long as it answers its pings,
-- whatever happens to the other nodes.
pub set_node_state_manual-IsHeld :
    (m : Monitor) (key : String) (start : MemberInfo) (now : ℕ) (h : Pings)
    → lookup key m.members ≡ some start
    → AllAnswered key h
    → get_node_state (run (set_node_state_manual m key failed now).0 h) key ≡ some failed
unfolding get_node_state
set_node_state_manual-IsHeld m key start now h e a =
    let f = set_node_state_manual-lookup m key failed start now e in
    let (mem, g, w) =
      run-IsHeld (set_node_state_manual m key failed now).0 key (force_state start failed now) h f
        (force_state-IsHeld start now) a in
    rw g (ap some w.down)

suspected_when_late :
    (cfg : Config) (mem : MemberInfo) (reason : String) (now : ℕ)
    → leb_ℤ cfg.suspect_timeout (sub_ℕ now mem.last_seen) ≡ true
    → leb_ℤ cfg.fail_timeout (sub_ℕ now mem.last_seen) ≡ false
    → (miss cfg mem reason now).state ≡ suspected
unfolding miss
suspected_when_late cfg mem reason now s f = ground arith

alive_when_answered :
    (cfg : Config) (mem : MemberInfo) (text : String) (latency : ℤ) (health : Health) (now : ℕ)
    → mem.state ≡ suspected
    → (pinged cfg mem (answered 200 text latency health) now).state ≡ alive
unfolding succeed
alive_when_answered cfg mem text latency health now s = ground arith

-- A node that is marked FAILED by hand and then misses one ping between the two timeouts turns
-- SUSPECTED, and its next answer makes it ALIVE, though nobody has revived it.
pub missed_ping_lifts_override :
    (m : Monitor) (key reason text : String) (mem : MemberInfo) (now later : ℕ) (latency : ℤ)
    (health : Health)
    → lookup key m.members ≡ some mem
    → IsHeld mem
    → leb_ℤ m.config.suspect_timeout (sub_ℕ now mem.last_seen) ≡ true
    → leb_ℤ m.config.fail_timeout (sub_ℕ now mem.last_seen) ≡ false
    → let m' = (ping_peer m key (no_response reason) now).0 in
      (get_node_state m key ≡ some failed)
      × (get_node_state m' key ≡ some suspected)
      × (get_node_state (ping_peer m' key (answered 200 text latency health) later).0 key
          ≡ some alive)
unfolding get_node_state
missed_ping_lifts_override m key reason text mem now later latency health e v s f =
    let own : holds (text_discrete key key) ≡ true = self in
    let mem' : MemberInfo = miss m.config mem reason now in
    let down : mem'.state ≡ suspected = suspected_when_late m.config mem reason now s f in
    let e' = ping_peer-own m key key (no_response reason) now mem own e in
    let m' : Monitor = (ping_peer m key (no_response reason) now).0 in
    let e'' = ping_peer-own m' key key (answered 200 text latency health) later mem' own e' in
    (
      rw e (ap some v.down),
      rw e' (ap some down),
      rw e'' (ap some (alive_when_answered m'.config mem' text latency health later down)),
    )
  where
    self : holds (text_discrete key key) ≡ true
    self = ground arith
