-- ===== src/Control/Lock.antt =====
-- `acquireLock` and `releaseLock` of cli/src/lib/control-plane.ts. The lock is a directory with a
-- file that names its owner; `lock_owner_pid` reads the file, where it holds a positive number.
use open_agent_hub.Prelude.{
  Option, none, some, Bool, true, false, ◌&&◌, ◌||◌, not, if◌then◌else◌, List, [], ◌∷◌, ℕ, zero,
  suc, eqb,
}
pub mod Holding
pub mod Racing
pub mod Kept

pub data LockDir : Type 0 where
  absent : LockDir
  present : Option ℕ → LockDir

abbrev pub lock_owner_pid : LockDir → Option ℕ
lock_owner_pid absent = none
lock_owner_pid (present owner) = owner

-- `owner !== null && isProcessAlive(owner)`
abbrev pub owner_alive : (ℕ → Bool) → Option ℕ → Bool
owner_alive is_alive none = false
owner_alive is_alive (some p) = is_alive p

-- the attempts that are left
acquire_attempts : (ℕ → Bool) → ℕ → ℕ → LockDir → LockDir × Bool
acquire_attempts is_alive me zero dir = (dir, false)
acquire_attempts is_alive me (suc n) absent = (present (some me), true)
acquire_attempts is_alive me (suc n) (present owner) =
    let again = acquire_attempts is_alive me n absent in
    if owner_alive is_alive owner then (present owner, false) else again

unfoldable pub acquire_lock : (ℕ → Bool) → ℕ → LockDir → LockDir × Bool
unfolding acquire_attempts
acquire_lock is_alive me dir = acquire_attempts is_alive me 2 dir

abbrev owned_by : ℕ → Option ℕ → Bool
owned_by me none = false
owned_by me (some p) = eqb p me

-- `owner !== null && !isProcessAlive(owner)`
abbrev owner_dead : (ℕ → Bool) → Option ℕ → Bool
owner_dead is_alive none = false
owner_dead is_alive (some p) = not (is_alive p)

unfoldable pub release_lock : (ℕ → Bool) → ℕ → LockDir → LockDir
release_lock is_alive me dir =
    let owner = lock_owner_pid dir in
    if owned_by me owner || owner_dead is_alive owner then absent else dir

-- The calls of `acquireLock` on the file system one by one: a process makes the directory, writes its
-- name, or looks at the owner and removes the directory.
pub data Phase : Type 0 where
  trying : ℕ → Phase
  made : ℕ → Phase
  clearing : ℕ → Phase
  holding : Phase
  refused : Phase

unfoldable pub lock_step : (ℕ → Bool) → ℕ → Phase → LockDir → Phase × LockDir
lock_step is_alive me (trying zero) dir = (refused, dir)
lock_step is_alive me (trying (suc n)) absent = (made n, present none)
lock_step is_alive me (trying (suc n)) (present owner) =
    if owner_alive is_alive owner then (refused, present owner) else (clearing n, present owner)
lock_step is_alive me (made n) absent = (clearing n, absent)
lock_step is_alive me (made n) (present _) = (holding, present (some me))
lock_step is_alive me (clearing n) dir = (trying n, absent)
lock_step is_alive me holding dir = (holding, dir)
lock_step is_alive me refused dir = (refused, dir)
