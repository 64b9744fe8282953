-- ===== src/Supervisor/Stop/Settling.antt =====
-- What `stopRun` answers, and what it leaves in the files.
use open_agent_hub.Prelude.{
  String, Option, none, some, Bool, true, false, ◌≡◌, arith, List, [], ◌∷◌, ◌||◌, if◌then◌else◌,
  thrown, truthy, concat, eq_refl,
}
use open_agent_hub.Supervisor.Record.{
  RunRecord, running, stopping, container, World, read_run, write_run, run_is_active, state_name,
}
use open_agent_hub.Supervisor.Record.Files.{read_run-write_run}
use open_agent_hub.Supervisor.Stop.{Round, stopped_record, settle_run, container_of, stop_run}

-- Rounds in which nobody else writes.
abbrev pub quiet : List Bool → List Round
quiet [] = []
quiet (dead ∷ rest) = record { others = λ w. w; dead = dead } ∷ quiet rest

-- some round sees the run dead
abbrev pub some_dead : List Bool → Bool
some_dead [] = false
some_dead (dead ∷ rest) = dead || some_dead rest

-- While nobody else writes, the command that waits for a run marked "stopping" answers that it has
-- stopped exactly if some look sees the run dead, and then leaves its record as exited by hand;
-- otherwise the files stay as they are.
pub settle_run-quiet :
    (now id : String) (fallback r : RunRecord) (w : World) (deads : List Bool)
    → read_run w id ≡ some r
    → r.state ≡ stopping
    → settle_run now id fallback w (quiet deads) ≡ (
        if some_dead deads
        then (write_run w (stopped_record now r), (true, stopped_record now r))
        else (w, (false, r)))
unfolding settle_run run_is_active
settle_run-quiet now id fallback r w [] e s = ground arith
settle_run-quiet now id fallback r w (dead ∷ rest) e s =
    rw (e, settle_run) (ground (arith, settle_run-quiet now id fallback r w rest e s))

module _ (now id : String) (found : Option String) (rounds : List Round) (w : World) where
  -- Stopping a run that is not there, or that is not active, changes nothing and throws; a
  -- container that docker does not know leaves the record in the state "running" and throws.
  pub stop_run_refuses :
      (read_run w id ≡ none
        → stop_run now found rounds w id ≡ (w, thrown (concat ("run " ∷ id ∷ " not found" ∷ []))))
      × ((old : RunRecord)
          → read_run w id ≡ some old
          → run_is_active old ≡ false
          → stop_run now found rounds w id ≡ (
            w,
            thrown (
                concat
                  ("run " ∷ id ∷ " is not running (state: " ∷ state_name old.state ∷ ")" ∷ [])),
          ))
      × ((old : RunRecord)
          → read_run w id ≡ some old
          → old.run_id ≡ id
          → run_is_active old ≡ true
          → old.sandbox ≡ container
          → truthy (container_of old.container_id found) ≡ false
          → read_run (stop_run now found rounds w id).0 id ≡ some (record old { state = running }))
  unfolding stop_run
  stop_run_refuses = (
    (λ e. rw (e, stop_run)),
    (λ old e idle. rw (e, stop_run) (rw idle)),
    (λ old e same active kind unknown.
        rw (e, stop_run) (rw (active, kind, unknown) (simp (read_run-write_run, same, eq_refl)))),
  )
