-- ===== src/Control/Lock/Racing.antt =====
-- Two processes that take the lock, step by step.
use open_agent_hub.Prelude.{some, Bool, ◌≡◌, refl, List, [], ◌∷◌, ℕ}
use open_agent_hub.Control.Lock.{LockDir, absent, present, Phase, trying, holding, lock_step}

-- the phases of two processes, and the lock
pub record TwoStarts : Type 0 where
  pub first : Phase
  pub second : Phase
  pub dir : LockDir

pub data Turn : Type 0 where
  of_first of_second : Turn

unfoldable pub turn : (ℕ → Bool) → ℕ → ℕ → Turn → TwoStarts → TwoStarts
turn is_alive a b of_first s =
    let (phase, dir) = lock_step is_alive a s.first s.dir in record s { first = phase; dir = dir }
turn is_alive a b of_second s =
    let (phase, dir) = lock_step is_alive b s.second s.dir in record s { second = phase; dir = dir }

unfoldable pub turns : (ℕ → Bool) → ℕ → ℕ → List Turn → TwoStarts → TwoStarts
turns is_alive a b [] s = s
turns is_alive a b (t ∷ ts) s = turns is_alive a b ts (turn is_alive a b t s)

abbrev pub both_start : LockDir → TwoStarts
both_start dir = record { first = trying 2; second = trying 2; dir = dir }

-- the second looks between the directory and the name of the first
abbrev pub between : List Turn
between = of_first ∷ of_second ∷ of_second ∷ of_second ∷ of_second ∷ of_first ∷ []

-- The making of the directory and the writing of its owner are two steps: for any two processes that
-- start on a free lock, there is an order of their steps in which both of them hold it.
pub both_hold :
    (is_alive : ℕ → Bool) (a b : ℕ)
    → turns is_alive a b between (both_start absent)
      ≡ record { first = holding; second = holding; dir = present (some a) }
unfolding turns turn lock_step
both_hold is_alive a b = refl
