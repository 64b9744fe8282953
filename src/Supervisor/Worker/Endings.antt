-- ===== src/Supervisor/Worker/Endings.antt =====
-- How the worker's reports end a run.
use open_agent_hub.Prelude.{
  String, Option, none, some, Bool, true, false, ◌≡◌, arith, refl, ap, ◌∙◌, ℕ, ◌||◌, if◌then◌else◌,
  get_or_default, eq_refl, eqb, ◌&&◌,
}
use open_agent_hub.Supervisor.Record
use open_agent_hub.Supervisor.Record.{
  RunRecord, RunState, RunHealth, running, stopping, exited, failed, ExitReason, manual_stop, oom,
  timeout, container, World, read_run, write_run, run_is_active, sync_run_to_usage,
}
use open_agent_hub.Supervisor.Record.Files.{read_run-write_run}
use open_agent_hub.Supervisor.Reconcile.{is_container}
use open_agent_hub.Supervisor.Stop.{is_stopping}
use open_agent_hub.Supervisor.Worker.{
  Report, Ended, is_manual, is_manual_stop, end_reason, final_record, finalize, record_report,
  report_health, complete,
}

-- the files do not depend on what is reported to the usage database
read_run-record_report :
    (now : String) (w : World) (r : RunRecord) (report : Report) (id : String)
    → read_run (record_report now w r report) id ≡ read_run w id
unfolding read_run record_report
read_run-record_report now w r report id = refl

-- somebody asked for the stop: the record says so
abbrev pub asked_to_stop : RunRecord → Bool
asked_to_stop r = is_stopping r.state || is_manual r.exit_reason

read_run-finalize :
    (now : String) (report : Report) (w : World) (r n : RunRecord) (code : ℕ) (reason : ExitReason)
    → read_run w r.run_id ≡ some n
    → n.run_id ≡ r.run_id
    → read_run (finalize now report w r false code reason).0 r.run_id
      ≡ some (final_record now n code reason)
unfolding finalize final_record
read_run-finalize now report w r n code reason e same =
    read_run-record_report _ _ _ _ _ ∙ simp (e, read_run-write_run, same, eq_refl)

-- The first `finalize` leaves the final record, made of the record as it is read then; each later
-- call, whatever it reports, leaves the world as it is.
pub finalize_once :
    (now later : String) (report report' : Report) (w : World) (r n : RunRecord) (code code' : ℕ)
    (reason reason' : ExitReason)
    → read_run w r.run_id ≡ some n
    → n.run_id ≡ r.run_id
    → (read_run (finalize now report w r false code reason).0 r.run_id
        ≡ some (final_record now n code reason))
      × (finalize later report'
            (finalize now report w r false code reason).0
            r
            (finalize now report w r false code reason).1
            code'
            reason'
          ≡ finalize now report w r false code reason)
unfolding finalize
finalize_once now later report report' w r n code code' reason reason' e same =
    (read_run-finalize now report w r n code reason e same, refl)

read_run-report_health :
    (w : World) (r n : RunRecord) (health : Option RunHealth)
    → read_run w r.run_id ≡ some n
    → n.run_id ≡ r.run_id
    → read_run (report_health w r health) r.run_id
      ≡ some (record n { health = get_or_default health n.health })
read_run-report_health w r n none e same = e
read_run-report_health w r n (some h) e same = simp (e, read_run-write_run, same, eq_refl)

-- the record at the end of a run that ended by itself
abbrev last_record : String → RunRecord → Option RunHealth → Ended → RunRecord
last_record now n health e =
    final_record now
      (record n {
        health = get_or_default health n.health;
        model_provider = some e.model_provider;
        model_name = some e.model_name;
      })
      e.code (end_reason n e.timed_out e.sandbox e.code)

read_run-complete :
    (now : String) (report : Report) (w : World) (r n : RunRecord) (health : Option RunHealth)
    (e : Ended)
    → read_run w r.run_id ≡ some n
    → n.run_id ≡ r.run_id
    → read_run (complete now report w r false health e).0 r.run_id
      ≡ some (last_record now n health e)
unfolding complete end_reason
read_run-complete now report w r n health e found same =
    rw (read_run-report_health w r n health found same, complete)
      (read_run-finalize now report _ r _ e.code _ (simp (read_run-write_run, same, eq_refl)) same)

final_record-asked :
    (now : String) (n : RunRecord) (health : Option RunHealth) (e : Ended)
    → asked_to_stop n ≡ true
    → last_record now n health e ≡ record n {
      state = exited;
      health = get_or_default health n.health;
      ended_at = some now;
      exit_code = some 0;
      exit_reason = some manual_stop;
      model_provider = some e.model_provider;
      model_name = some e.model_name;
    }
unfolding final_record end_reason
final_record-asked now n health e asked = rw asked refl

-- none of the reasons behind the stop by hand is the stop by hand
not_manual :
    (timed_out memory : Bool)
    → is_manual_stop (if timed_out then timeout else if memory then oom else Record.exit) ≡ false
not_manual timed_out memory = ground arith

final_record-ended :
    (now : String) (n : RunRecord) (health : Option RunHealth) (e : Ended)
    → asked_to_stop n ≡ false
    → last_record now n health e ≡ record n {
      state = if eqb e.code 0 then exited else failed;
      health = get_or_default health n.health;
      ended_at = some now;
      exit_code = some e.code;
      exit_reason = some (
          if e.timed_out
          then timeout
          else if is_container e.sandbox && eqb e.code 137
          then oom
          else Record.exit);
      model_provider = some e.model_provider;
      model_name = some e.model_name;
    }
unfolding final_record end_reason
final_record-ended now n health e asked =
    rw asked (rw (not_manual e.timed_out (is_container e.sandbox && eqb e.code 137)) refl)

-- The record of a run that ended by itself, as the worker leaves it. Where somebody had asked for
-- the stop, the run has exited by hand with code 0, whatever the program's code was; otherwise the
-- code of the program is kept, the state is "exited" exactly for code 0, and the reason is the time
-- limit, else memory for a container that ended with code 137, else an exit.
pub complete_lem :
    (now : String) (report : Report) (w : World) (r n : RunRecord) (health : Option RunHealth)
    (e : Ended)
    → read_run w r.run_id ≡ some n
    → n.run_id ≡ r.run_id
    → (asked_to_stop n ≡ true
        → read_run (complete now report w r false health e).0 r.run_id
          ≡ some (record n {
            state = exited;
            health = get_or_default health n.health;
            ended_at = some now;
            exit_code = some 0;
            exit_reason = some manual_stop;
            model_provider = some e.model_provider;
            model_name = some e.model_name;
          }))
      × (asked_to_stop n ≡ false
          → read_run (complete now report w r false health e).0 r.run_id
            ≡ some (record n {
              state = if eqb e.code 0 then exited else failed;
              health = get_or_default health n.health;
              ended_at = some now;
              exit_code = some e.code;
              exit_reason = some (
                  if e.timed_out
                  then timeout
                  else if is_container e.sandbox && eqb e.code 137
                  then oom
                  else Record.exit);
              model_provider = some e.model_provider;
              model_name = some e.model_name;
            }))
complete_lem now report w r n health e found same = (
  (λ asked.
      read_run-complete now report w r n health e found same
      ∙ ap some (final_record-asked now n health e asked)),
  (λ asked.
      read_run-complete now report w r n health e found same
      ∙ ap some (final_record-ended now n health e asked)),
)
