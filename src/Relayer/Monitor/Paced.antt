-- ===== src/Relayer/Monitor/Paced.antt =====
-- How often the monitor of crates/shielder-relayer/src/monitor/rpc_monitor.rs asks the node.
use zk_os_monorepo.Base.{
  inr, inl, ◌<◌, ltb, Bool-cases, ℕ, ◌+◌, ◌-◌, ◌*◌, ◌≤◌, ◌≡◌, refl, List, [], ◌∷◌, arith,
  if◌then◌else◌,
}
use zk_os_monorepo.Relayer.Monitor.{RpcMonitor, Health, new, requires_update, update_health, health}

-- What happens to a monitor: some task asks at a time, or some pending check is answered.
pub data Event : Type 0 where
  asked : ℕ → Event
  answered : Health → Event

unfoldable pub step : RpcMonitor → Event → RpcMonitor
unfolding requires_update update_health
step m (asked now) = (requires_update m now).0
step m (answered checked) = update_health m checked

unfoldable pub run : RpcMonitor → List Event → RpcMonitor
unfolding step
run m [] = m
run m (e ∷ es) = run (step m e) es

-- How many of the tasks that ask are told to check.
unfoldable pub checks : RpcMonitor → List Event → ℕ
unfolding step
checks m [] = 0
checks m (asked now ∷ es) =
    (if (requires_update m now).1 then 1 else 0) + checks (step m (asked now)) es
checks m (answered checked ∷ es) = checks (step m (answered checked)) es

-- Nobody asks after `end`.
abbrev pub AskedBy : ℕ → List Event → Type 0
AskedBy end [] = Unit {0}
AskedBy end (asked now ∷ es) = (now ≤ end) × AskedBy end es
AskedBy end (answered checked ∷ es) = AskedBy end es

-- The last answer, or the one before them.
abbrev pub last_answer : Health → List Event → Health
last_answer h [] = h
last_answer h (asked now ∷ es) = last_answer h es
last_answer h (answered checked ∷ es) = last_answer checked es

paced_step :
    (c validity now last end : ℕ)
    → validity < now - last
    → c * (validity + 1) + now ≤ end
    → (1 + c) * (validity + 1) + last ≤ end
paced_step c validity now last end late h = grind arith

checks_lem :
    (m : RpcMonitor) (es : List Event) (end : ℕ)
    → AskedBy end es
    → m.last_check_started ≤ end
    → checks m es * (m.cache_validity + 1) + m.last_check_started ≤ end
unfolding checks
checks_lem m [] end by started = omega arith
checks_lem m (asked now ∷ es) end by started =
    elim (Bool-cases (ltb m.cache_validity (now - m.last_check_started))) [
      | inl due ↦
          let late : m.cache_validity < now - m.last_check_started = ground arith in
          let next = record m { last_check_started = now } in
          let counted = checks_lem next es end by.1 by.0 in
          let paced =
            paced_step (checks next es) m.cache_validity now m.last_check_started end late
              counted in
          ground (arith, due, paced)
      | inr fresh ↦ ground (arith, fresh, checks_lem m es end by.1 started)
    ]
checks_lem m (answered checked ∷ es) end by started =
    checks_lem (update_health m checked) es end by started

health_lem : (m : RpcMonitor) (es : List Event) → health (run m es) ≡ last_answer (health m) es
unfolding run health
health_lem m [] = refl
health_lem m (asked now ∷ es) = ground (arith, health_lem (requires_update m now).0 es)
health_lem m (answered checked ∷ es) = health_lem (update_health m checked) es

-- Whatever the order in which tasks ask a new monitor and in which the node answers, the checks that
-- are started by a time number at most the time since the creation divided by the validity and one
-- more, and the health that the monitor tells is the last answer that came.
pub checks_paced :
    (cache_validity created end : ℕ) (first : Health) (es : List Event)
    → AskedBy end es
    → created ≤ end
    → (let m = new cache_validity first created in
        (checks m es * (cache_validity + 1) ≤ end - created)
        × (health (run m es) ≡ last_answer first es))
unfolding new health
checks_paced cache_validity created end first es by started =
    let m = new cache_validity first created in
    (omega (arith, checks_lem m es end by started), health_lem m es)
