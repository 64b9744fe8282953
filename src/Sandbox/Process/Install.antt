-- ===== src/Sandbox/Process/Install.antt =====
-- What the process sandbox installs before the first run.
use open_agent_hub.Prelude.{String, true, false, ◌≡◌, ◌↔◌, ◌⊎◌, arith, ok}
use open_agent_hub.Sandbox.Policy.{TrustLevel, trusted, local}
use open_agent_hub.Sandbox.Spec.{SandboxSpec}
use open_agent_hub.Sandbox.Process.{
  ProcessSandbox, unprepared, new_process_sandbox, prepare, install, install_python, install_node,
  Exec,
}

-- Without the network permission no program is started before the agent itself: whatever the
-- programs would do, preparing gives the same result.
pub prepare_offline :
    (b : ProcessSandbox) (exec other : Exec)
    → b.spec.network ≡ false
    → prepare b exec ≡ prepare b other
unfolding prepare install install_python install_node
prepare_offline b exec other offline = ground arith

-- A sandbox that was prepared once is not prepared again: it is passed on as it is, whatever the
-- programs would do. Preparing changes the mark alone.
pub prepare_once :
    (b ready : ProcessSandbox) (exec other : Exec)
    → prepare b exec ≡ ok ready
    → (prepare ready other ≡ ok ready) × (ready ≡ record b { prepared = true })
unfolding prepare
prepare_once b ready exec other h = ground arith

-- A sandbox without a container exists for trusted and local agents alone, and starts unprepared.
pub new_process_sandbox_iff :
    (spec : SandboxSpec) (trust : TrustLevel) (bin : String)
    → ((b : ProcessSandbox) × (new_process_sandbox spec trust bin ≡ ok b))
      ↔ ((trust ≡ trusted) ⊎ (trust ≡ local))
unfolding new_process_sandbox
new_process_sandbox_iff spec trust bin =
    ((λ (b, made). ground arith), (λ allowed. (unprepared spec bin, ground arith)))
