-- ===== src/Supervisor/Record/Files.antt =====
-- Reading back what was written.
use open_agent_hub.Prelude.{
  String, some, ◌≡◌, arith, if◌then◌else◌, lookup-insert, str_eq, eq_iff, eq_refl,
}
use open_agent_hub.Supervisor.Record.{RunRecord, World, read_run, write_run, record_file}

-- A record that was written is the one that is read for its run; other runs read as before.
pub read_run-write_run :
    (w : World) (r : RunRecord) (id : String)
    → read_run (write_run w r) id ≡ (if str_eq r.run_id id then some r else read_run w id)
unfolding read_run write_run
read_run-write_run w r id =
    ground (arith, lookup-insert r.run_id id (record_file r) w.files, eq_iff r.run_id id)

pub read_run-write_run_self :
    (w : World) (r : RunRecord) → read_run (write_run w r) r.run_id ≡ some r
read_run-write_run_self w r = simp (read_run-write_run, eq_refl)
