-- ===== src/Store/Jobs.antt =====
-- The job operations of internal/store/sqlite.go.
use ocp_offline.Prelude.{
  ℕ, Text, true, List, Result, ◌≡◌, refl, nat_eq, text_eq, ◌==◌, if◌then◌else◌, is_empty, keep, ltb,
  sort_by,
}
use ocp_offline.Store.Models.{Job}
use ocp_offline.Store.Table.{
  Row, Table, Fault, StoreError, exec, affected, query, update_where, count_where, insert_row,
  has_key,
}
use ocp_offline.Store.SyncRuns.{limited}

pub with_id-id : (n : ℕ) (a : Job) → (record a { id = n }).id ≡ n
with_id-id n a = refl

instance abbrev pub job_row : Row Job
job_row = record {
  key = λ a. a.id;
  with_key = λ n a. record a { id = n };
  key-with_key = with_id-id;
}

-- CreateJob: the id of the new row
unfoldable pub create_job : Fault → Job → Table Job → Result StoreError ℕ × Table Job
create_job fault job t = exec fault t (insert_row job)

-- UpdateJob
unfoldable pub update_job : Fault → Job → Table Job → Result StoreError (Unit {0}) × Table Job
update_job fault job t = affected (
    exec fault t (λ s. (
      count_where (has_key job.id) s.rows,
      record s { rows = update_where (has_key job.id) (λ old. job) s.rows },
    )))

-- ListJobs, by the next run
unfoldable pub list_jobs : Fault → Text → ℕ → Table Job → Result StoreError (List Job)
list_jobs fault status limit t = query fault (
    limited limit (
      sort_by (λ (a b : Job). ltb a.next_run b.next_run)
        (keep (λ job. if is_empty status then true else job.status == status) t.rows)))
