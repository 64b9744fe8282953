-- ===== src/Control/Daemon/Starting.antt =====
-- When a daemon is started, and beside what.
use open_agent_hub.Prelude.{
  ℕ, Option, none, some, ◌≡◌, ◌∙◌, refl, ap, arith, inl, inr, Bool, true, false, if◌then◌else◌,
  List, [], ◌∷◌, ◌++◌, In, In-of_append, Bool-cases, Result, ok, thrown,
}
use open_agent_hub.Control.Daemon.{
  DaemonState, Machine, Effect, clear_state, take_lock, free_lock, terminate, spawn_daemon,
  identity_matches, daemon_needs_restart, stop_found, stop_daemon, EnsureResult, Course, look_found,
  look_first, start_found, or_start, usable, stop_again, start_on, start_locked, await_rival,
  with_lock, ensure_daemon,
}

-- No daemon is started.
abbrev IsQuiet : List Effect → Type 0
IsQuiet effects = (p : ℕ) → ¬ (In (spawn_daemon p) effects)

IsQuiet-nil : IsQuiet []
IsQuiet-nil p m = m

clear-ne : (p : ℕ) → ¬ (clear_state ≡ spawn_daemon p)
clear-ne p e = ground arith

IsQuiet-clear : IsQuiet (clear_state ∷ [])
IsQuiet-clear p m = elim m [ inl e ↦ absurd (ground arith) | inr z ↦ z ]

IsQuiet-terminate : (n : ℕ) → IsQuiet (terminate n ∷ [])
IsQuiet-terminate n p m = elim m [ inl e ↦ absurd (ground arith) | inr z ↦ z ]

IsQuiet-append : (xs ys : List Effect) → IsQuiet xs → IsQuiet ys → IsQuiet (xs ++ ys)
IsQuiet-append xs ys h k p m = elim (In-of_append (spawn_daemon p) xs ys m) [
  | inl l ↦ h p l
  | inr r ↦ k p r
]

stop_found-IsQuiet :
    (m after : Machine) (state : Option DaemonState) → IsQuiet (stop_found m after state).0
unfolding stop_found
stop_found-IsQuiet m after none = IsQuiet-nil
stop_found-IsQuiet m after (some state) = elim (Bool-cases (identity_matches m state)) [
  | inl t ↦ rw t (IsQuiet-terminate state.pid)
  | inr t ↦ rw t IsQuiet-clear
]

stop_daemon-IsQuiet : (m after : Machine) → IsQuiet (stop_daemon m after).0
unfolding stop_daemon
stop_daemon-IsQuiet m after = stop_found-IsQuiet m after m.state

stop_again-IsQuiet :
    (m after : Machine) (state : Option DaemonState) → IsQuiet (stop_again m after state)
unfolding stop_again
stop_again-IsQuiet m after none = IsQuiet-nil
stop_again-IsQuiet m after (some state) = elim (Bool-cases (identity_matches m state)) [
  | inl t ↦ rw t (stop_daemon-IsQuiet m after)
  | inr t ↦ rw t IsQuiet-nil
]

look_found-IsQuiet :
    (m later : Machine) (state : Option DaemonState) → IsQuiet (look_found m later state).0
unfolding look_found
look_found-IsQuiet m later none = IsQuiet-nil
look_found-IsQuiet m later (some state) = elim (Bool-cases (identity_matches m state)) [
  | inr t ↦ rw t IsQuiet-nil
  | inl t ↦ rw t (elim (Bool-cases (daemon_needs_restart m state)) [
    | inl u ↦ rw u (IsQuiet-append _ _ (stop_daemon-IsQuiet m later) IsQuiet-clear)
    | inr u ↦ rw u (elim (Bool-cases (m.healthy state.port)) [
      | inl v ↦ rw v IsQuiet-nil
      | inr v ↦ rw v (elim (Bool-cases (later.alive state.pid)) [
        | inl x ↦ rw x IsQuiet-nil
        | inr x ↦ rw x IsQuiet-clear
      ])
    ])
  ])
]

start_on_port :
    (m : Machine) (port : Result ℕ) (p : ℕ) → In (spawn_daemon p) (start_on m port).0 → port ≡ ok p
start_on_port m (thrown e) p h = absurd h
start_on_port m (ok n) p h = elim h [
  | inl e ↦ absurd (ground arith)
  | inr h ↦ elim h [ inl e ↦ ground arith | inr z ↦ absurd z ]
]

-- A daemon was started under the lock.
pub record IsStartedUnderLock (c : Course) (p : ℕ) (effects : List Effect) : Type 0 where
  pub before : List Effect
  pub inside : List Effect
  pub enabled : c.enabled ≡ true
  pub taken : c.lock_taken ≡ true
  pub chosen : c.port ≡ ok p
  pub needed : usable c.locked c.locked.state ≡ none
  pub shape : effects ≡ before ++ take_lock ∷ (inside ++ free_lock ∷ [])
  pub quiet : ¬ (In (spawn_daemon p) before)
  pub started : In (spawn_daemon p) inside

chosen_branch :
    (p : ℕ) (b : Bool) (x y : List Effect × Result EnsureResult)
    → IsQuiet y.0
    → In (spawn_daemon p) (if b then x else y).0
    → (b ≡ true) × In (spawn_daemon p) x.0 × ((if b then x else y).0 ≡ x.0)
chosen_branch p true x y quiet h = (refl, h, refl)
chosen_branch p false x y quiet h = absurd (quiet p h)

module _ (c : Course) (p : ℕ) where
  start_found_lem :
      (found : Option DaemonState)
      → In (spawn_daemon p) (start_found c found).0
      → (inside : List Effect) × (c.port ≡ ok p)
        × (found ≡ none)
        × ((start_found c found).0 ≡ inside ++ free_lock ∷ [])
        × In (spawn_daemon p) inside
  unfolding start_found
  start_found_lem (some again) h = elim h [ inl q ↦ absurd (ground arith) | inr z ↦ absurd z ]
  start_found_lem none h =
      let effects = (start_on c.spawned c.port).0 in
      let earlier = stop_again c.locked c.locked_later c.locked.state in
      elim (In-of_append (spawn_daemon p) (earlier ++ effects) (free_lock ∷ []) h) [
        | inr last ↦ elim last [ inl q ↦ absurd (ground arith) | inr z ↦ absurd z ]
        | inl m ↦ elim (In-of_append (spawn_daemon p) earlier effects m) [
          | inl old ↦ absurd (stop_again-IsQuiet c.locked c.locked_later c.locked.state p old)
          | inr new ↦ (earlier ++ effects, start_on_port c.spawned c.port p new, refl, refl, m)
        ]
      ]

  with_lock_lem :
      In (spawn_daemon p) (with_lock c).0
      → (inside : List Effect) × (c.lock_taken ≡ true)
        × (c.port ≡ ok p)
        × (usable c.locked c.locked.state ≡ none)
        × ((with_lock c).0 ≡ take_lock ∷ (inside ++ free_lock ∷ []))
        × In (spawn_daemon p) inside
  unfolding with_lock start_locked
  with_lock_lem h =
      let inner : List Effect × Result EnsureResult =
        (take_lock ∷ (start_locked c).0, (start_locked c).1) in
      let (taken, k, same) =
        chosen_branch p c.lock_taken inner ([], await_rival c.rounds) IsQuiet-nil h in
      elim k [
        | inl q ↦ absurd (ground arith)
        | inr m ↦
            let (inside, port, needed, shape, started) =
              start_found_lem (usable c.locked c.locked.state) m in
            (inside, taken, port, needed, same ∙ ap (λ r. take_lock ∷ r) shape, started)
      ]

  or_start_lem :
      (before : List Effect) (found : Option EnsureResult)
      (rest : List Effect × Result EnsureResult)
      → IsQuiet before
      → In (spawn_daemon p) (or_start (before, found) rest).0
      → In (spawn_daemon p) rest.0 × ((or_start (before, found) rest).0 ≡ before ++ rest.0)
  unfolding or_start
  or_start_lem before (some answer) rest quiet h = absurd (quiet p h)
  or_start_lem before none rest quiet h = elim (In-of_append (spawn_daemon p) before rest.0 h) [
    | inl old ↦ absurd (quiet p old)
    | inr new ↦ (new, refl)
  ]

  -- A daemon is started only where daemons are enabled, on the port that was chosen, under the lock
  -- that this start has taken and frees at its end, and after no daemon was found under the lock
  -- that matches its state, is current and is healthy.
  pub ensure_daemon-locked :
      In (spawn_daemon p) (ensure_daemon c).0 → IsStartedUnderLock c p (ensure_daemon c).0
  unfolding ensure_daemon look_first
  ensure_daemon-locked h =
      let before = look_first c.first c.first_later in
      let course = or_start before (with_lock c) in
      let (on, k, same) = chosen_branch p c.enabled course _ IsQuiet-nil h in
      let quiet = look_found-IsQuiet c.first c.first_later c.first.state in
      let (new, all_effects) = or_start_lem before.0 before.1 (with_lock c) quiet k in
      let (inside, taken, port, needed, shape, started) = with_lock_lem new in
      record {
        before = before.0;
        inside = inside;
        enabled = on;
        taken = taken;
        chosen = port;
        needed = needed;
        shape = same ∙ all_effects ∙ ap (λ r. before.0 ++ r) shape;
        quiet = quiet p;
        started = started;
      }
