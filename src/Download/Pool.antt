-- ===== src/Download/Pool.antt =====
-- internal/download/pool.go: workers that take jobs from a channel and send results to another. The
-- state is a step relation, one step for each thing that a goroutine does next; the scheduler and
-- the moment of a cancellation are free. What the client returns for a job is a parameter. Callbacks
-- and the log are not modelled.
pub mod Order
pub mod Progress
use ocp_offline.Prelude.{
  ℕ, zero, suc, ◌+◌, ◌≡◌, ◌<◌, Text, Bool, true, false, List, [], ◌∷◌, ◌++◌, Option, none, some,
  Result, ok, err, ltb, length, sort_by, if◌then◌else◌,
}
use ocp_offline.Download.Client.{DownloadResult, DownloadError, cancelled}

pub record Job : Type 0 where
  pub url : Text
  pub dest_path : Text
  pub expected_checksum : Text
  pub expected_size : ℕ

pub record PoolResult : Type 0 where
  pub job : Job
  pub success : Bool
  pub error : Option DownloadError
  pub download : Option DownloadResult
  pub index : ℕ

-- NewPool: at least one worker
unfoldable pub pool_workers : ℕ → ℕ
pool_workers workers = if ltb 0 workers then workers else 1

-- The result of a download that a worker ran.
unfoldable pub job_result : Job → ℕ → Result DownloadError DownloadResult → PoolResult
job_result job index (ok r) = record {
  job = job;
  success = true;
  error = none;
  download = some r;
  index = index;
}
job_result job index (err e) = record {
  job = job;
  success = false;
  error = some e;
  download = none;
  index = index;
}

abbrev pub cancelled_result : Job → ℕ → PoolResult
cancelled_result job index = record {
  job = job;
  success = false;
  error = some cancelled;
  download = none;
  index = index;
}

-- An index stands for the pair of `jobWithIndex`, since the index tells the job. `to_send` is what the
-- sender has left, `channel` the jobs channel, `working` the jobs of the workers that run one, `idle`
-- the number of the other workers, `results` what the results channel was sent.
pub record Pool : Type 0 where
  pub to_send : List ℕ
  pub channel : List ℕ
  pub working : List ℕ
  pub idle : ℕ
  pub results : List PoolResult
  pub is_cancelled : Bool

abbrev pub indices : ℕ → ℕ → List ℕ
indices k zero = []
indices k (suc n) = k ∷ indices (suc k) n

-- The pool of `Execute` with so many workers and jobs.
unfoldable pub start_pool : ℕ → ℕ → Pool
start_pool workers n = record {
  to_send = indices 0 n;
  channel = [];
  working = [];
  idle = pool_workers workers;
  results = [];
  is_cancelled = false;
}

module _ (job_at : ℕ → Job) (fetch : ℕ → Result DownloadError DownloadResult) where
  unfoldable pub result_at : ℕ → PoolResult
  result_at i = job_result (job_at i) i (fetch i)

  -- The sender sends a job or stops; the context is cancelled; a worker takes a job, ends the one it
  -- runs, leaves with a cancelled result, or leaves as the channel is closed and empty.
  pub data PoolStep (p : Pool) : Pool → Type 0 where
    send :
        (i : ℕ) (rest : List ℕ)
        → p.to_send ≡ i ∷ rest
        → PoolStep p (record p { to_send = rest; channel = p.channel ++ i ∷ [] })
    stop : p.is_cancelled ≡ true → 0 < length p.to_send → PoolStep p (record p { to_send = [] })
    cancel : p.is_cancelled ≡ false → PoolStep p (record p { is_cancelled = true })
    begin :
        (i k : ℕ) (rest : List ℕ)
        → p.is_cancelled ≡ false
        → p.channel ≡ i ∷ rest
        → p.idle ≡ suc k
        → PoolStep p (record p { channel = rest; idle = k; working = i ∷ p.working })
    finish :
        (front : List ℕ) (i : ℕ) (behind : List ℕ)
        → p.working ≡ front ++ i ∷ behind
        → PoolStep p (record p {
          working = front ++ behind;
          idle = suc p.idle;
          results = p.results ++ result_at i ∷ [];
        })
    abandon :
        (i k : ℕ) (rest : List ℕ)
        → p.is_cancelled ≡ true
        → p.channel ≡ i ∷ rest
        → p.idle ≡ suc k
        → PoolStep p (record p {
          channel = rest;
          idle = k;
          results = p.results ++ cancelled_result (job_at i) i ∷ [];
        })
    leave :
        (k : ℕ)
        → p.to_send ≡ []
        → p.channel ≡ []
        → p.idle ≡ suc k
        → PoolStep p (record p { idle = k })

  pub data PoolRun (p : Pool) : Pool → Type 0 where
    here : PoolRun p p
    next : {q r : Pool} → PoolRun p q → PoolStep q r → PoolRun p r

-- Every worker has left, so the results channel is closed.
abbrev pub IsOver : Pool → Type 0
IsOver p = (p.idle ≡ 0) × (p.working ≡ [])

-- What `Execute` returns: the results by index.
unfoldable pub collected : Pool → List PoolResult
collected p = sort_by (λ (a b : PoolResult). ltb a.index b.index) p.results
