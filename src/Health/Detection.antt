-- ===== src/Health/Detection.antt =====
-- The state that the detector gives a node against a plain reading of the history of its pings.
use shc.Base.{
  ℕ, suc, ◌≤◌, ◌≡◌, refl, sym, ap, ◌∙◌, ◌⊎◌, inl, inr, ite, String, List, [], ◌∷◌, Option, none,
  some, Bool, true, false, ◌&&◌, ◌==◌, arith, if◌then◌else◌, holds, text_discrete, Bool-cases,
  Option-cases,
}
use shc.Base.Int.{ℤ, sub_ℕ, leb_ℤ, is_positive, pos}
use shc.Base.GoMap.{GoMap, text_comparable, lookup, insert}
use shc.Base.GoMap.Laws.{lookup-insert}
use shc.Health.{
  NodeState, alive, suspected, failed, MemberInfo, Config, Monitor, Health, Probe, no_request,
  no_response, answered, succeed, miss, state_after, record_success, record_failure, ping_peer,
}

-- What one ping does to the member that it is about.
abbrev pub pinged : Config → MemberInfo → Probe → ℕ → MemberInfo
pinged cfg mem (no_request reason) now = miss cfg mem reason now
pinged cfg mem (no_response reason) now = miss cfg mem reason now
pinged cfg mem (answered status text latency health) now =
    if status == 200
    then succeed mem (if is_positive latency then latency else pos 1) health now
    else miss cfg mem text now

abbrev pub on_member : (MemberInfo → MemberInfo) → Option MemberInfo → Option MemberInfo
on_member f none = none
on_member f (some mem) = some (f mem)

insert_present :
    (node_id j : String) (f : MemberInfo → MemberInfo) (mem : MemberInfo)
    (m : GoMap String MemberInfo)
    → lookup node_id m ≡ some mem
    → lookup j (insert node_id (f mem) m)
      ≡ ite (text_discrete node_id j) (on_member f (lookup j m)) (lookup j m)
insert_present node_id j f mem m e =
    lookup-insert node_id j (f mem) m
    ∙ (elim (text_discrete node_id j)
        as (λ d.
          ite d (some (f mem)) (lookup j m) ≡ ite d (on_member f (lookup j m)) (lookup j m)) [
            | yes p ↦ sym (ap (on_member f) (ap (λ k. lookup k m) (sym p) ∙ e))
            | no p ↦ refl
          ])

insert_absent :
    (node_id j : String) (f : MemberInfo → MemberInfo) (m : GoMap String MemberInfo)
    → lookup node_id m ≡ none
    → lookup j m ≡ ite (text_discrete node_id j) (on_member f (lookup j m)) (lookup j m)
insert_absent node_id j f m e =
    elim (text_discrete node_id j)
      as (λ d. lookup j m ≡ ite d (on_member f (lookup j m)) (lookup j m)) [
        | yes p ↦
            let n : lookup j m ≡ none = ap (λ k. lookup k m) (sym p) ∙ e in
            n ∙ sym (ap (on_member f) n)
        | no p ↦ refl
      ]

record_success-lookup :
    (m : Monitor) (node_id j : String) (latency : ℤ) (health : Health) (now : ℕ)
    → lookup j (record_success m node_id latency health now).0.members
      ≡ ite
          (text_discrete node_id j)
          (on_member (λ mem. succeed mem latency health now) (lookup j m.members))
          (lookup j m.members)
unfolding record_success
record_success-lookup m node_id j latency health now =
    elim (Option-cases (lookup node_id m.members)) [
      | inl e ↦ rw (e, record_success) (insert_absent node_id j _ m.members e)
      | inr (mem, e) ↦ rw (e, record_success) (insert_present node_id j _ mem m.members e)
    ]

record_failure-lookup :
    (m : Monitor) (node_id j reason : String) (now : ℕ)
    → lookup j (record_failure m node_id reason now).0.members
      ≡ ite
          (text_discrete node_id j)
          (on_member (λ mem. miss m.config mem reason now) (lookup j m.members))
          (lookup j m.members)
unfolding record_failure
record_failure-lookup m node_id j reason now = elim (Option-cases (lookup node_id m.members)) [
  | inl e ↦ rw (e, record_failure) (insert_absent node_id j _ m.members e)
  | inr (mem, e) ↦ rw (e, record_failure) (insert_present node_id j _ mem m.members e)
]

-- A ping changes its own member only, and registers nobody.
pub ping_peer-lookup :
    (m : Monitor) (node_id j : String) (probe : Probe) (now : ℕ)
    → lookup j (ping_peer m node_id probe now).0.members
      ≡ ite
          (text_discrete node_id j)
          (on_member (λ mem. pinged m.config mem probe now) (lookup j m.members))
          (lookup j m.members)
unfolding ping_peer
ping_peer-lookup m node_id j (no_request reason) now = record_failure-lookup m node_id j reason now
ping_peer-lookup m node_id j (no_response reason) now = record_failure-lookup m node_id j reason now
ping_peer-lookup m node_id j (answered status text latency health) now =
    elim (Bool-cases (status == 200)) [
      | inl e ↦ rw e (record_success-lookup m node_id j _ health now)
      | inr e ↦ rw e (record_failure-lookup m node_id j text now)
    ]

record_success-config :
    (m : Monitor) (node_id : String) (latency : ℤ) (health : Health) (now : ℕ)
    → (record_success m node_id latency health now).0.config ≡ m.config
unfolding record_success
record_success-config m node_id latency health now = ground arith

record_failure-config :
    (m : Monitor) (node_id reason : String) (now : ℕ)
    → (record_failure m node_id reason now).0.config ≡ m.config
unfolding record_failure
record_failure-config m node_id reason now = ground arith

pub ping_peer-config :
    (m : Monitor) (node_id : String) (probe : Probe) (now : ℕ)
    → (ping_peer m node_id probe now).0.config ≡ m.config
unfolding ping_peer
ping_peer-config m node_id (no_request reason) now = record_failure-config m node_id reason now
ping_peer-config m node_id (no_response reason) now = record_failure-config m node_id reason now
ping_peer-config m node_id (answered status text latency health) now =
    elim (Bool-cases (status == 200)) [
      | inl e ↦ rw e (record_success-config m node_id _ health now)
      | inr e ↦ rw e (record_failure-config m node_id text now)
    ]

-- Recorded pings, the newest first.
abbrev pub Pings : Type 0
Pings = List (ℕ × String × Probe)

unfoldable pub run : Monitor → Pings → Monitor
run m [] = m
run m ((now, node_id, probe) ∷ older) = (ping_peer (run m older) node_id probe now).0

abbrev pub IsOrdered : ℕ → Pings → Type 0
IsOrdered t [] = Unit {0}
IsOrdered t ((now, node_id, probe) ∷ older) = (now ≤ t) × IsOrdered now older

abbrev pub is_answer : Probe → Bool
is_answer (no_request reason) = false
is_answer (no_response reason) = false
is_answer (answered status text latency health) = status == 200

-- When the node last answered, `since` being its registration.
unfoldable pub last_answer : String → ℕ → Pings → ℕ
last_answer key since [] = since
last_answer key since ((now, node_id, probe) ∷ older) =
    if holds (text_discrete node_id key) && is_answer probe
    then now
    else last_answer key since older

-- How many pings it has missed since.
unfoldable pub missed_since : String → Pings → ℕ
missed_since key [] = 0
missed_since key ((now, node_id, probe) ∷ older) =
    let rest = missed_since key older in
    if holds (text_discrete node_id key) then (if is_answer probe then 0 else suc rest) else rest

-- What a node is by the time since its last answer.
abbrev pub judge : Config → ℤ → NodeState
judge cfg silence =
    if leb_ℤ cfg.fail_timeout silence
    then failed
    else (if leb_ℤ cfg.suspect_timeout silence then suspected else alive)

-- ALIVE if its last ping was answered; otherwise what the time from its last answer to that ping says.
unfoldable pub verdict : Config → String → ℕ → Pings → NodeState
verdict cfg key since [] = alive
verdict cfg key since ((now, node_id, probe) ∷ older) =
    if holds (text_discrete node_id key)
    then (if is_answer probe then alive else judge cfg (sub_ℕ now (last_answer key since older)))
    else verdict cfg key since older

-- What the history says of a member.
pub record IsVerdict (cfg : Config) (key : String) (since : ℕ) (h : Pings) (mem : MemberInfo)
    : Type 0 where
  pub automatic : mem.manual_override ≡ false
  pub seen : mem.last_seen ≡ last_answer key since h
  pub missed : mem.missed_pings ≡ missed_since key h
  pub judged : mem.state ≡ verdict cfg key since h

-- More time without an answer never lowers the verdict.
state_after-again :
    (cfg : Config) (seen p now : ℕ)
    → p ≤ now
    → state_after cfg (state_after cfg alive seen p) seen now ≡ state_after cfg alive seen now
unfolding state_after
state_after-again cfg seen p now h = ground arith

verdict-earlier :
    (cfg : Config) (key : String) (since t : ℕ) (h : Pings)
    → IsOrdered t h
    → (verdict cfg key since h ≡ alive)
      ⊎ ((p : ℕ) × (p ≤ t)
          × (verdict cfg key since h ≡ state_after cfg alive (last_answer key since h) p))
unfolding verdict last_answer state_after
verdict-earlier cfg key since t [] o = inl refl
verdict-earlier cfg key since t ((now, node_id, probe) ∷ older) o =
    elim (Bool-cases (holds (text_discrete node_id key))) [
      | inr e ↦ elim (verdict-earlier cfg key since now older o.1) [
        | inl a ↦ inl (rw e a)
        | inr (p, b, a) ↦ inr (p, omega arith, rw e a)
      ]
      | inl e ↦ elim (Bool-cases (is_answer probe)) [
        | inl a ↦ inl (rw (e, a))
        | inr a ↦ inr (now, o.0, rw (e, a))
      ]
    ]

verdict-next :
    (cfg : Config) (key : String) (since now : ℕ) (h : Pings)
    → IsOrdered now h
    → state_after cfg (verdict cfg key since h) (last_answer key since h) now
      ≡ state_after cfg alive (last_answer key since h) now
verdict-next cfg key since now h o = elim (verdict-earlier cfg key since now h o) [
  | inl e ↦ rw e
  | inr (p, b, e) ↦ rw e (state_after-again cfg (last_answer key since h) p now b)
]

pinged-IsVerdict :
    (cfg : Config) (key node_id : String) (since now : ℕ) (probe : Probe) (older : Pings)
    (mem : MemberInfo)
    → IsOrdered now older
    → holds (text_discrete node_id key) ≡ true
    → IsVerdict cfg key since older mem
    → IsVerdict cfg key since ((now, node_id, probe) ∷ older) (pinged cfg mem probe now)
unfolding succeed miss verdict last_answer missed_since
pinged-IsVerdict cfg key node_id since now (no_request reason) older mem o e v =
    ground (arith, verdict-next cfg key since now older o)
pinged-IsVerdict cfg key node_id since now (no_response reason) older mem o e v =
    ground (arith, verdict-next cfg key since now older o)
pinged-IsVerdict cfg key node_id since now (answered status text latency health) older mem o e v =
    ground (arith, verdict-next cfg key since now older o)

passed-IsVerdict :
    (cfg : Config) (key node_id : String) (since now : ℕ) (probe : Probe) (older : Pings)
    (mem : MemberInfo)
    → holds (text_discrete node_id key) ≡ false
    → IsVerdict cfg key since older mem
    → IsVerdict cfg key since ((now, node_id, probe) ∷ older) mem
unfolding verdict last_answer missed_since
passed-IsVerdict cfg key node_id since now probe older mem e v = ground arith

pub run-config : (m : Monitor) (h : Pings) → (run m h).config ≡ m.config
unfolding run
run-config m [] = refl
run-config m ((now, node_id, probe) ∷ older) =
    ping_peer-config (run m older) node_id probe now ∙ run-config m older

pub ping_peer-own :
    (m : Monitor) (node_id key : String) (probe : Probe) (now : ℕ) (mem : MemberInfo)
    → holds (text_discrete node_id key) ≡ true
    → lookup key m.members ≡ some mem
    → lookup key (ping_peer m node_id probe now).0.members ≡ some (pinged m.config mem probe now)
ping_peer-own m node_id key probe now mem h e =
    ping_peer-lookup m node_id key probe now
    ∙ chosen
    ∙ ap (on_member (λ x. pinged m.config x probe now)) e
  where
    chosen :
        ite
          (text_discrete node_id key)
          (on_member (λ x. pinged m.config x probe now) (lookup key m.members))
          (lookup key m.members)
        ≡ on_member (λ x. pinged m.config x probe now) (lookup key m.members)
    chosen = ground arith

pub ping_peer-other :
    (m : Monitor) (node_id key : String) (probe : Probe) (now : ℕ)
    → holds (text_discrete node_id key) ≡ false
    → lookup key (ping_peer m node_id probe now).0.members ≡ lookup key m.members
ping_peer-other m node_id key probe now h = ping_peer-lookup m node_id key probe now ∙ passed
  where
    passed :
        ite
          (text_discrete node_id key)
          (on_member (λ x. pinged m.config x probe now) (lookup key m.members))
          (lookup key m.members)
        ≡ lookup key m.members
    passed = ground arith

-- A member that was registered as ALIVE and not overridden by hand: after any pings of any nodes,
-- recorded in the order of time, it is still registered, its LastSeen is the time of its last
-- answer, MissedPings counts the misses since, and its state is ALIVE after an answer and otherwise
-- FAILED, SUSPECTED or ALIVE by the time from its last answer to its last miss alone.
pub run-IsVerdict :
    (m : Monitor) (key : String) (start : MemberInfo) (t : ℕ) (h : Pings)
    → lookup key m.members ≡ some start
    → start.state ≡ alive
    → start.manual_override ≡ false
    → start.missed_pings ≡ 0
    → IsOrdered t h
    → (mem : MemberInfo) × (lookup key (run m h).members ≡ some mem)
      × IsVerdict m.config key start.last_seen h mem
unfolding run verdict last_answer missed_since
run-IsVerdict m key start t [] e s a z o =
    (start, e, record { automatic = a; seen = refl; missed = z; judged = s })
run-IsVerdict m key start t ((now, node_id, probe) ∷ older) e s a z o =
    let (mem, f, v) = run-IsVerdict m key start now older e s a z o.1 in
    elim (Bool-cases (holds (text_discrete node_id key))) [
      | inl p ↦ (
        pinged m.config mem probe now,
        ping_peer-own (run m older) node_id key probe now mem p f
            ∙ ap (λ c. some (pinged c mem probe now)) (run-config m older),
        pinged-IsVerdict m.config key node_id start.last_seen now probe older mem o.1 p v,
      )
      | inr p ↦ (
        mem,
        ping_peer-other (run m older) node_id key probe now p ∙ f,
        passed-IsVerdict m.config key node_id start.last_seen now probe older mem p v,
      )
    ]
