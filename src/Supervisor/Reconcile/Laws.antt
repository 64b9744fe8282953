-- ===== src/Supervisor/Reconcile/Laws.antt =====
-- What reconciling a record decides.
use open_agent_hub.Prelude.{
  String, Option, none, some, true, ◌≡◌, ◌≢◌, ◌↔◌, ◌⊎◌, inl, inr, arith, refl, ℕ, Bool-cases,
}
use open_agent_hub.Supervisor.Record.{RunRecord, RunSandbox, container, run_is_active}
use open_agent_hub.Supervisor.Reconcile.{
  ContainerStatus, RunProbe, reconcile_run, reconcile_container, reconcile_process, is_container,
  ended,
}

-- What a run lives by: a container that is running, or a worker that is alive.
abbrev pub HasContainer : RunProbe → RunRecord → Type 0
HasContainer probe r =
    (c : ContainerStatus) × (probe.container r.run_id ≡ some c) × (c.running ≡ true)

abbrev pub HasWorker : RunProbe → RunRecord → Type 0
HasWorker probe r = (pid : ℕ) × (r.pid ≡ some pid) × (probe.is_alive pid ≡ true)

abbrev pub IsLive : RunProbe → RunRecord → Type 0
IsLive probe r =
    ((r.sandbox ≡ container) × HasContainer probe r) ⊎ ((r.sandbox ≢ container) × HasWorker probe r)

is_container_iff : (k : RunSandbox) → (is_container k ≡ true) ↔ (k ≡ container)
is_container_iff k = ground arith

live_container :
    (now : String) (probe : RunProbe) (r : RunRecord) (o : Option ContainerStatus)
    → run_is_active (reconcile_container now r o) ≡ true
    → (c : ContainerStatus) × (o ≡ some c) × (c.running ≡ true)
unfolding reconcile_container run_is_active ended
live_container now probe r none h = cc
live_container now probe r (some c) h = (c, refl, ground arith)

live_process :
    (now : String) (probe : RunProbe) (r : RunRecord) (o : Option ℕ)
    → run_is_active (reconcile_process now r probe o) ≡ true
    → (pid : ℕ) × (o ≡ some pid) × (probe.is_alive pid ≡ true)
unfolding reconcile_process run_is_active ended
live_process now probe r none h = cc
live_process now probe r (some pid) h = (pid, refl, ground arith)

-- A record is active after reconciling exactly if it was active and the run is alive.
pub reconcile_run-active_iff :
    (now : String) (probe : RunProbe) (r : RunRecord)
    → (run_is_active (reconcile_run now probe r) ≡ true)
      ↔ ((run_is_active r ≡ true) × IsLive probe r)
unfolding reconcile_run run_is_active
reconcile_run-active_iff now probe r = (
  (λ h. elim (Bool-cases (run_is_active r)) [
    | inr idle ↦ absurd (ground arith)
    | inl active ↦ (
      active,
      elim (Bool-cases (is_container r.sandbox)) [
        | inl e ↦ inl (
          (is_container_iff r.sandbox).0 e,
          live_container now probe r (probe.container r.run_id) (ground arith),
        )
        | inr e ↦ inr (ground arith, live_process now probe r r.pid (ground arith))
      ],
    )
  ]),
  (λ (active, live). elim live [
    | inl (kind, (c, found, up)) ↦ ground arith
    | inr (kind, (pid, known, up)) ↦ ground arith
  ]),
)

-- Reconciling twice is reconciling once, and a record that is not active is left as it is.
pub reconcile_run_idempotent :
    (now later : String) (probe : RunProbe) (r : RunRecord)
    → reconcile_run later probe (reconcile_run now probe r) ≡ reconcile_run now probe r
unfolding reconcile_run run_is_active
reconcile_run_idempotent now later probe r = ground arith
