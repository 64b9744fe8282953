-- ===== src/Control/Lock/Kept.antt =====
-- A lock that is held, beside any steps of another process.
use open_agent_hub.Prelude.{ℕ, some, ◌≡◌, ◌⊎◌}
use open_agent_hub.Control.Lock.{present, trying, holding, refused}
use open_agent_hub.Control.Lock.Racing.{TwoStarts}

-- The first process holds the lock, and the second still tries or has given up.
record IsKept (a : ℕ) (s : TwoStarts) : Type 0 where
  pub first : s.first ≡ holding
  pub owner : s.dir ≡ present (some a)
  pub second : ((n : ℕ) × (s.second ≡ trying n)) ⊎ (s.second ≡ refused)
