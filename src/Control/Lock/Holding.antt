-- ===== src/Control/Lock/Holding.antt =====
-- What a call of the lock does by itself.
use open_agent_hub.Prelude.{
  some, Bool, true, false, ◌≡◌, ◌≢◌, inl, inr, arith, refl, if◌then◌else◌, ℕ, zero, suc, Bool-cases,
}
use open_agent_hub.Control.Lock.{
  LockDir, absent, present, lock_owner_pid, owner_alive, acquire_lock, acquire_attempts,
  release_lock, Phase, trying, holding, refused, lock_step,
}

-- A process gets the lock exactly if no live process owns it, and is its owner then; where it does
-- not get it, the lock is as it was.
pub acquire_lock_iff :
    (is_alive : ℕ → Bool) (me : ℕ) (dir : LockDir)
    → (owner_alive is_alive (lock_owner_pid dir) ≡ false
        → acquire_lock is_alive me dir ≡ (present (some me), true))
      × (owner_alive is_alive (lock_owner_pid dir) ≡ true
          → acquire_lock is_alive me dir ≡ (dir, false))
unfolding acquire_lock acquire_attempts
acquire_lock_iff is_alive me absent = ((λ h. refl), (λ h. cc))
acquire_lock_iff is_alive me (present owner) = ((λ h. rw h refl), (λ h. rw h refl))

-- A live process that acquired the lock keeps it while others call `acquireLock` and `releaseLock`
-- from start to end; its own release gives the lock free to the next caller.
pub acquire_lock-release :
    (is_alive : ℕ → Bool) (me other : ℕ)
    → is_alive me ≡ true
    → me ≢ other
    → (acquire_lock is_alive other (present (some me)) ≡ (present (some me), false))
      × (release_lock is_alive other (present (some me)) ≡ present (some me))
      × (acquire_lock is_alive other (release_lock is_alive me (present (some me)))
          ≡ (present (some other), true))
unfolding acquire_lock acquire_attempts release_lock
acquire_lock-release is_alive me other alive differ = ground arith

-- the steps of one process alone
abbrev pub alone : (ℕ → Bool) → ℕ → ℕ → Phase × LockDir → Phase × LockDir
alone is_alive me zero s = s
alone is_alive me (suc n) (phase, dir) = alone is_alive me n (lock_step is_alive me phase dir)

abbrev pub outcome : Bool → Phase
outcome got = if got then holding else refused

-- Six steps of one process that nobody interrupts do what `acquireLock` does as a whole.
pub lock_step-acquire_lock :
    (is_alive : ℕ → Bool) (me : ℕ) (dir : LockDir)
    → alone is_alive me 6 (trying 2, dir)
      ≡ (outcome (acquire_lock is_alive me dir).1, (acquire_lock is_alive me dir).0)
unfolding acquire_lock acquire_attempts lock_step
lock_step-acquire_lock is_alive me absent = refl
lock_step-acquire_lock is_alive me (present owner) =
    elim (Bool-cases (owner_alive is_alive owner)) [ inl e ↦ rw e refl | inr e ↦ rw e refl ]
