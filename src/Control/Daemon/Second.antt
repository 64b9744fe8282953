-- ===== src/Control/Daemon/Second.antt =====
-- Two daemons at once: where the code refuses a second one, and where it does not.
use open_agent_hub.Prelude.{
  ℕ, Option, none, some, ◌≡◌, refl, arith, inl, inr, Bool, true, false, if◌then◌else◌, subst, sym,
  List, [], ◌∷◌, ◌++◌, In, In-append_left, In-append_right, Result, ok, thrown,
}
use open_agent_hub.Control.Daemon.{
  Machine, Effect, take_lock, free_lock, spawn_daemon, StopDaemonOutcome, stop_daemon, Course,
  EnsureResult, look_first, usable, stop_again, start_on, start_found, start_locked, with_lock,
  or_start, ensure_daemon, after_stop, restart_daemon,
}

refuses :
    (outcome : StopDaemonOutcome) (effects : List Effect) (c : Course)
    → outcome ≡ StopDaemonOutcome.failed
    → (after_stop outcome effects c).0 ≡ effects
unfolding after_stop
refuses StopDaemonOutcome.failed effects c e = refl
refuses StopDaemonOutcome.stopped effects c e = ground arith
refuses StopDaemonOutcome.stale effects c e = ground arith

module _ (c : Course) (p : ℕ) where
  on_port : (port : Result ℕ) → port ≡ ok p → In (spawn_daemon p) (start_on c.spawned port).0
  on_port (thrown e) h = ground arith
  on_port (ok n) h = inr (inl (ground arith))

  or_start_none :
      (before : List Effect) (found : Option EnsureResult)
      (rest : List Effect × Result EnsureResult)
      → found ≡ none
      → In (spawn_daemon p) rest.0
      → In (spawn_daemon p) (or_start (before, found) rest).0
  unfolding or_start
  or_start_none before none rest e m = In-append_right (spawn_daemon p) before rest.0 m
  or_start_none before (some x) rest e m = ground arith

  spawned_found : c.port ≡ ok p → In (spawn_daemon p) (start_found c none).0
  unfolding start_found
  spawned_found port =
      let earlier = stop_again c.locked c.locked_later c.locked.state in
      In-append_left (spawn_daemon p) (earlier ++ (start_on c.spawned c.port).0) (free_lock ∷ []) (
        In-append_right (spawn_daemon p) earlier (start_on c.spawned c.port).0
          (on_port c.port port))

  branch_in :
      (b : Bool) (x y : List Effect × Result EnsureResult)
      → b ≡ true
      → In (spawn_daemon p) x.0
      → In (spawn_daemon p) (if b then x else y).0
  branch_in true x y e m = m
  branch_in false x y e m = ground arith

  -- A restart whose daemon did not stop does nothing more. A start under the lock that finds no
  -- usable daemon starts one on the chosen port also where the one that it found there did not stop.
  pub second_daemon :
      (m after : Machine)
      → c.enabled ≡ true
      → (look_first c.first c.first_later).1 ≡ none
      → c.lock_taken ≡ true
      → usable c.locked c.locked.state ≡ none
      → (stop_daemon c.locked c.locked_later).1.0 ≡ StopDaemonOutcome.failed
      → (stop_daemon m after).1.0 ≡ StopDaemonOutcome.failed
      → c.port ≡ ok p
      → ((restart_daemon m after c).0 ≡ (stop_daemon m after).0)
        × In (spawn_daemon p) (ensure_daemon c).0
  unfolding restart_daemon ensure_daemon with_lock start_locked
  second_daemon m after on first taken needed stuck failed_stop port =
      let inner : List Effect × Result EnsureResult =
        (take_lock ∷ (start_locked c).0, (start_locked c).1) in
      let here : In (spawn_daemon p) (start_found c (usable c.locked c.locked.state)).0 =
        subst (λ u. In (spawn_daemon p) (start_found c u).0) (sym needed) (spawned_found port) in
      (
        refuses (stop_daemon m after).1.0 _ c failed_stop,
        branch_in c.enabled (or_start (look_first c.first c.first_later) (with_lock c)) _ on (
            or_start_none _ _ (with_lock c) first
              (branch_in c.lock_taken inner _ taken (inr here))),
      )
