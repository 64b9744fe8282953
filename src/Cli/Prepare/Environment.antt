-- ===== src/Cli/Prepare/Environment.antt =====
-- The secrets that an agent finds in its environment, against those that its run lists.
use open_agent_hub.Prelude.{refl, arith}
