-- ===== src/Sandbox/Spec.antt =====
-- runtime/src/sandbox/types.ts: what a sandbox is told, and what a run gives back.
use open_agent_hub.Prelude.{String, Option, Bool, List, Object, ℕ}
use open_agent_hub.Manifest.{Manifest, Permission}

pub record RunOptions : Type 0 where
  pub command : String
  pub input : Option String
  pub timeout_ms : Option ℕ
  pub stream_output : Option Bool

pub record RunResult : Type 0 where
  pub exit_code : ℕ
  pub stdout : String
  pub stderr : String
  pub timed_out : Option Bool

pub record SandboxSpec : Type 0 where
  pub agent_dir : String
  pub manifest : Manifest
  pub granted : List Permission
  pub env : Object String
  pub network : Bool
  pub user : String
  pub host : String
  pub run_id : Option String
  pub interface_name : Option String
  pub package_digest : Option String
