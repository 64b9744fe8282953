-- ===== src/Supervisor/Start.antt =====
-- cli/src/lib/supervisor.ts: `startManagedRun` and `restartRun`. The process that is started gives
-- its identifier, or none where it could not be started.
use open_agent_hub.Prelude.{
  String, Option, none, some, Bool, false, ◌≡◌, ◌⊎◌, inl, inr, arith, refl, ap, sym, ◌∙◌, not,
  if◌then◌else◌, List, [], ◌∷◌, ℕ, Result, ok, thrown, get_or_default, concat, Bool-cases,
  Option-cases,
}
use open_agent_hub.Supervisor.Record
use open_agent_hub.Supervisor.Record.{
  RunRecord, starting, RestartPolicy, never, RunInterface, RunSandbox, World, read_run, write_run,
  run_is_active,
}
use open_agent_hub.Supervisor.Record.Files.{read_run-write_run_self}
use open_agent_hub.Supervisor.Stop.{Round, stop_run}

pub record ManagedRunOptions : Type 0 where
  pub run_id : String
  pub agent_key : String
  pub version : String
  pub interface_name : RunInterface
  pub sandbox : RunSandbox
  pub port : Option ℕ
  pub timeout_ms : Option ℕ
  pub restart_policy : Option RestartPolicy
  pub digest : Option String

-- the record of a run that has not reported yet
unfoldable pub starting_record : String → ManagedRunOptions → RunRecord
starting_record now o = record {
  run_id = o.run_id;
  agent_key = o.agent_key;
  version = o.version;
  interface_name = o.interface_name;
  sandbox = o.sandbox;
  state = starting;
  pid = none;
  container_id = none;
  port = o.port;
  health = Record.unknown;
  timeout_ms = o.timeout_ms;
  restart_policy = get_or_default o.restart_policy never;
  created_at = now;
  started_at = now;
  ended_at = none;
  exit_code = none;
  exit_reason = none;
  digest = o.digest;
  model_provider = none;
  model_name = none;
}

-- `startManagedRun`: the record is written before the worker starts, and again with its process. What
-- the worker writes between the two is `others`.
unfoldable pub start_managed_run :
    String → Option ℕ → (World → World) → World → ManagedRunOptions → World × (RunRecord × ℕ)
start_managed_run now pid others w o =
    let r = starting_record now o in
    let w' = others (write_run w r) in
    let r' = record r { pid = pid } in (write_run w' r', (r', get_or_default pid 0))

abbrev began : World × (RunRecord × ℕ) → World × Result (RunRecord × ℕ)
began (w, started) = (w, ok started)

-- a restart once the run was told to stop
abbrev restart_stopped :
    World × Result (Bool × RunRecord)
    → (World → World × (RunRecord × ℕ))
    → String
    → World × Result (RunRecord × ℕ)
restart_stopped (w, thrown message) start late = (w, thrown message)
restart_stopped (w, ok (_, r)) start late =
    if run_is_active r then (w, thrown late) else began (start w)

-- `restartRun`: the options are those of a start, but the restart policy is the one of the record
unfoldable pub restart_run :
    String
    → Option String
    → List Round
    → Option ℕ
    → (World → World)
    → World
    → ManagedRunOptions
    → World × Result (RunRecord × ℕ)
restart_run now found rounds pid others w o = elim (read_run w o.run_id) [
  | none ↦ (w, thrown (concat ("run " ∷ o.run_id ∷ " not found" ∷ [])))
  | some old ↦
      let start = λ (v : World).
        start_managed_run now pid others v
          (record o { restart_policy = some old.restart_policy }) in
      if not (run_is_active old)
      then began (start w)
      else restart_stopped (stop_run now found rounds w o.run_id) start
          (concat ("run " ∷ o.run_id ∷ " did not stop in time" ∷ []))
]

-- Whatever the worker wrote between the two writes, the record of a run just started is the one
-- that says "starting", with the identifier of the worker.
pub read_run-start_managed_run :
    (now : String) (pid : Option ℕ) (others : World → World) (w : World) (o : ManagedRunOptions)
    → read_run (start_managed_run now pid others w o).0 o.run_id
      ≡ some (record (starting_record now o) { pid = pid })
unfolding start_managed_run starting_record
read_run-start_managed_run now pid others w o = read_run-write_run_self _ _

restart_stopped-eq-ok :
    (stopped : World × Result (Bool × RunRecord)) (start : World → World × (RunRecord × ℕ))
    (late : String) {x : RunRecord × ℕ}
    → (restart_stopped stopped start late).1 ≡ ok x
    → (restart_stopped stopped start late ≡ began (start stopped.0))
      × ((b : Bool) × (last : RunRecord) × (stopped.1 ≡ ok (b, last))
          × (run_is_active last ≡ false))
restart_stopped-eq-ok (w, thrown message) start late h = cc
restart_stopped-eq-ok (w, ok (b, r)) start late h = elim (Bool-cases (run_is_active r)) [
  | inl active ↦ absurd (ground arith)
  | inr idle ↦ (rw idle refl, (b, r, refl, idle))
]

began_lem :
    (now : String) (pid : Option ℕ) (others : World → World) (v : World) (o : ManagedRunOptions)
    (policy : RestartPolicy) (a : World × Result (RunRecord × ℕ)) {r : RunRecord} {p : ℕ}
    → a ≡ began (start_managed_run now pid others v (record o { restart_policy = some policy }))
    → a.1 ≡ ok (r, p)
    → (read_run a.0 o.run_id ≡ some r)
      × (r ≡ record (starting_record now o) { pid = pid; restart_policy = policy })
unfolding start_managed_run starting_record
began_lem now pid others v o policy a {r} {p} e h =
    let same : r ≡ record (starting_record now o) { pid = pid; restart_policy = policy } =
      ground (arith, e, h) in
    (rw (e, same) (read_run-write_run_self _ _), same)

restart_run_found :
    (now : String) (found : Option String) (rounds : List Round) (pid : Option ℕ)
    (others : World → World) (w : World) (o : ManagedRunOptions) (old : RunRecord)
    → read_run w o.run_id ≡ some old
    → restart_run now found rounds pid others w o ≡ (
        let start = λ (v : World).
          start_managed_run now pid others v
            (record o { restart_policy = some old.restart_policy }) in
        if not (run_is_active old)
        then began (start w)
        else restart_stopped
            (stop_run now found rounds w o.run_id)
            start
            (concat ("run " ∷ o.run_id ∷ " did not stop in time" ∷ [])))
unfolding restart_run
restart_run_found now found rounds pid others w o old e = rw (e, restart_run) refl

restart_run_missing :
    (now : String) (found : Option String) (rounds : List Round) (pid : Option ℕ)
    (others : World → World) (w : World) (o : ManagedRunOptions)
    → read_run w o.run_id ≡ none
    → restart_run now found rounds pid others w o
      ≡ (w, thrown (concat ("run " ∷ o.run_id ∷ " not found" ∷ [])))
unfolding restart_run
restart_run_missing now found rounds pid others w o e = rw (e, restart_run) refl

-- A restart that succeeds leaves a record that is starting, with the restart policy that the run
-- had; and the run was idle, or the stop answered with a record that is not active.
pub restart_run_starts :
    (now : String) (found : Option String) (rounds : List Round) (pid : Option ℕ)
    (others : World → World) (w : World) (o : ManagedRunOptions) {r : RunRecord} {p : ℕ}
    → (restart_run now found rounds pid others w o).1 ≡ ok (r, p)
    → (old : RunRecord) × (read_run w o.run_id ≡ some old)
      × (read_run (restart_run now found rounds pid others w o).0 o.run_id ≡ some r)
      × (r ≡ record (starting_record now o) { pid = pid; restart_policy = old.restart_policy })
      × ((run_is_active old ≡ false)
          ⊎ ((b : Bool) × (last : RunRecord) × ((stop_run now found rounds w o.run_id).1
                ≡ ok (b, last))
              × (run_is_active last ≡ false)))
restart_run_starts now found rounds pid others w o {r} {p} h =
    elim (Option-cases (read_run w o.run_id)) [
      | inl missing ↦
          absurd (ground (arith, h, restart_run_missing now found rounds pid others w o missing))
      | inr (old, e) ↦
          let start = λ (v : World).
            start_managed_run now pid others v
              (record o { restart_policy = some old.restart_policy }) in
          let late = concat ("run " ∷ o.run_id ∷ " did not stop in time" ∷ []) in
          let eq = restart_run_found now found rounds pid others w o old e in
          elim (Bool-cases (run_is_active old)) [
            | inr idle ↦
                let began_now : restart_run now found rounds pid others w o ≡ began (start w) =
                  eq ∙ rw idle refl in
                let (a, b) = began_lem now pid others w o old.restart_policy _ began_now h in
                (old, e, a, b, inl idle)
            | inl active ↦
                let stopped = stop_run now found rounds w o.run_id in
                let eq' : restart_run now found rounds pid others w o
                    ≡ restart_stopped stopped start late =
                  eq ∙ rw active refl in
                let (began_then, late_enough) =
                  restart_stopped-eq-ok stopped start late (sym (ap (λ x. x.1) eq') ∙ h) in
                let (a, b) =
                  began_lem now pid others stopped.0 o old.restart_policy _ (eq' ∙ began_then) h in
                (old, e, a, b, inr late_enough)
          ]
    ]
