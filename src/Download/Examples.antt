-- ===== src/Download/Examples.antt =====
-- The theorems about internal/download at concrete inputs.
use ocp_offline.Prelude.{
  ℕ, zero, suc, ◌==◌, if◌then◌else◌, ◌+◌, ◌*◌, ◌≡◌, ◌<◌, ◌≤◌, refl, Text, codes, text_eq, text_beq,
  nat_eq, true, false, [], ◌∷◌, none, some, Result, ok, err, arith, map,
}
use ocp_offline.Download.Client.{
  DownloadOptions, DownloadResult, whole, broken, Reply, no_response, response, Attempt,
  DownloadError, http_error, download, download_from, one_round, find_partial, after_attempt,
  close_file, take_reply, written, verify_file, remove_file, drop_bytes, should_not_retry,
}
use ocp_offline.Download.Client.Laws.{Matches, download-Matches}
use ocp_offline.Download.Client.Recovery.{
  IsUsable, IsLost, Serves, IsExpected, Recovered, download-Recovered,
}
use ocp_offline.Download.Pool.{
  Job, Pool, pool_workers, start_pool, result_at, PoolRun, here, next, send, begin, finish, leave,
  IsOver, collected,
}
use ocp_offline.Download.Pool.Order.{pool-in_order}
use ocp_offline.Download.Pool.Progress.{steps, pool-ends}

abbrev options : DownloadOptions
options = record {
  url = codes "https://mirror/a.rpm";
  dest_path = codes "/d/a.rpm";
  expected_checksum = codes "abcd";
  expected_size = 4;
  retry_count = 2;
}

-- The hash of a text is the text.
abbrev hash : Text → Text
hash content = content

abbrev round_with : (ℕ → Reply) → Attempt
round_with reply = record {
  is_done = false;
  can_stat = true;
  can_remove = true;
  can_make_dir = true;
  can_open = true;
  can_truncate = true;
  can_hash = true;
  can_close = true;
  reply = reply;
  is_done_waiting = false;
}

-- A server that breaks off after two bytes, and then sends what is left.
abbrev resuming : ℕ → Attempt
resuming i =
    if i == 1
    then round_with (λ n. response 200 (codes "ab") (broken false))
    else round_with (λ n. response 206 (codes "cd") whole)

abbrev resumed_result : DownloadResult
resumed_result = record {
  path = codes "/d/a.rpm";
  size = 4;
  sha256 = codes "abcd";
  resumed = false;
  attempts = 2;
}

resuming_run : (download hash resuming options none).0 ≡ ok resumed_result
unfolding download download_from one_round find_partial after_attempt close_file take_reply written
    verify_file remove_file drop_bytes text_beq should_not_retry
resuming_run = refl

download-Matches_example :
    Matches hash options resumed_result (download hash resuming options none).1
download-Matches_example = download-Matches hash resuming options none resumed_result resuming_run

-- A server whose first answer is lost.
abbrev recovering : ℕ → Attempt
recovering i =
    if i == 1
    then round_with (λ n. no_response false)
    else round_with (λ n. response 200 (codes "abcd") whole)

usable : (reply : ℕ → Reply) → IsUsable (round_with reply)
usable reply = record {
  not_done = refl;
  not_done_waiting = refl;
  stats = refl;
  removes = refl;
  makes_dir = refl;
  opens = refl;
  truncates = refl;
  hashes = refl;
  closes = refl;
}

expected : IsExpected hash options (codes "abcd")
expected = record { checksum = λ e. refl; size = λ e l. refl }

IsLost-before : (i : ℕ) → i < 1 → IsLost (recovering (1 + i))
IsLost-before zero p = record { usable = usable _; lost = λ n. refl }
IsLost-before (suc i) p = absurd (omega (arith, p))

serves : Serves (recovering 2) (codes "abcd")
serves = record { usable = usable _; served = λ n. refl }

download-Recovered_example :
    Recovered hash (codes "abcd") 2 (download hash recovering options (some (codes "xyz")))
download-Recovered_example =
    download-Recovered hash recovering options (some (codes "xyz")) (codes "abcd") 1 expected
      (omega arith) IsLost-before serves

abbrev job_at : ℕ → Job
job_at i = record { url = []; dest_path = i ∷ []; expected_checksum = []; expected_size = i }

-- The second job of two fails.
abbrev fetch : ℕ → Result DownloadError DownloadResult
fetch i = if i == 1 then err (http_error 404) else ok resumed_result

-- Two workers; the second job ends before the first.
abbrev ended : Pool
ended = record {
  to_send = [];
  channel = [];
  working = [];
  idle = 0;
  results = result_at job_at fetch 1 ∷ result_at job_at fetch 0 ∷ [];
  is_cancelled = false;
}

a_run : PoolRun job_at fetch (start_pool 2 2) ended
unfolding start_pool pool_workers
a_run =
    next
      (next
        (next
          (next
            (next
              (next (next (next here (send 0 (1 ∷ []) refl)) (send 1 [] refl))
                (begin 0 1 (1 ∷ []) refl refl refl))
              (begin 1 0 [] refl refl refl))
            (finish [] 1 (0 ∷ []) refl))
          (finish [] 0 [] refl))
        (leave 1 refl refl refl))
      (leave 0 refl refl refl)

pool-in_order_example : collected ended ≡ map (result_at job_at fetch) (0 ∷ 1 ∷ [])
pool-in_order_example = pool-in_order job_at fetch 2 2 ended a_run (refl, refl) refl

pool-ends_example :
    (steps job_at fetch a_run ≤ 4 * 2 + (pool_workers 2 + 1))
    × ((q : Pool) × PoolRun job_at fetch ended q × IsOver q)
pool-ends_example = pool-ends job_at fetch 2 2 ended a_run
