-- ===== src/Download/Client.antt =====
-- internal/download/client.go: one file, with retries and resumption. The server, the file system and
-- the context are a parameter, an `Attempt` for each round of the loop; the file at the destination
-- is the state. Headers, progress reports, delays, durations and the log are not modelled.
pub mod Laws
pub mod Sized
pub mod Recovery
use ocp_offline.Prelude.{
  ℕ, zero, suc, ◌+◌, ◌≡◌, Text, text_eq, nat_eq, Bool, true, false, not, ◌&&◌, ◌||◌, List, [], ◌∷◌,
  ◌++◌, Option, none, some, Result, ok, err, ◌==◌, ltb, leb, if◌then◌else◌, is_empty, length,
}

pub record DownloadOptions : Type 0 where
  pub url : Text
  pub dest_path : Text
  pub expected_checksum : Text
  pub expected_size : ℕ
  pub retry_count : ℕ

pub record DownloadResult : Type 0 where
  pub path : Text
  pub size : ℕ
  pub sha256 : Text
  pub resumed : Bool
  pub attempts : ℕ

-- How the copy of a body ends: at its end, or broken off, by the context or otherwise.
pub data CopyEnd : Type 0 where
  whole : CopyEnd
  broken : Bool → CopyEnd

-- What a request gets: no response, by the context or otherwise, or a status and the bytes of the
-- body that arrive.
pub data Reply : Type 0 where
  no_response : Bool → Reply
  response : ℕ → Text → CopyEnd → Reply

-- One round of the loop. `reply` is told from which byte the request asks.
pub record Attempt : Type 0 where
  pub is_done : Bool
  pub can_stat : Bool
  pub can_remove : Bool
  pub can_make_dir : Bool
  pub can_open : Bool
  pub can_truncate : Bool
  pub can_hash : Bool
  pub can_close : Bool
  pub reply : ℕ → Reply
  pub is_done_waiting : Bool

pub data DownloadError : Type 0 where
  no_error cancelled make_dir_failed open_failed close_failed hash_failed : DownloadError
  request_failed write_failed : Bool → DownloadError
  http_error : ℕ → DownloadError
  checksum_mismatch : Text → DownloadError
  size_mismatch : ℕ → DownloadError
  attempts_failed : ℕ → DownloadError → DownloadError

-- `os.Remove`, whose error is dropped
unfoldable pub remove_file : Attempt → Option Text → Option Text
remove_file a file = if a.can_remove then none else file

abbrev pub content_of : Option Text → Text
content_of none = []
content_of (some content) = content

-- What stays behind bytes that are written at the start of a file.
unfoldable pub drop_bytes : Text → Text → Text
drop_bytes [] old = old
drop_bytes (c ∷ new) [] = []
drop_bytes (c ∷ new) (d ∷ old) = drop_bytes new old

-- The check for a partial file: the size to resume from, whether it was resumed, and the file.
unfoldable pub find_partial :
    Attempt → DownloadOptions → Bool → Option Text → ℕ × Bool × Option Text
find_partial a opts resumed none = (0, resumed, none)
find_partial a opts resumed (some content) =
    if not a.can_stat
    then (0, resumed, some content)
    else if ltb 0 opts.expected_size && ltb (length content) opts.expected_size
    then (length content, true, some content)
    else if ltb 0 (length content)
    then (0, resumed, remove_file a (some content))
    else (0, resumed, some content)

-- The file behind the copy of a body: appended to what is there when resuming, unless a 200 restarts
-- it, or else written from the start.
unfoldable pub written : Attempt → ℕ → ℕ → Text → Text → Text
written a status file_size body old =
    if ltb 0 file_size
    then (if status == 200 && a.can_truncate then body else old ++ body)
    else body ++ drop_bytes body old

-- The size from which the bytes are counted.
abbrev pub counted_from : ℕ → ℕ → ℕ
counted_from status file_size = if status == 200 then 0 else file_size

abbrev pub Outcome : Type 0
Outcome = Result DownloadError DownloadResult × Option Text

-- The integrity check of a body that arrived.
unfoldable pub verify_file : (Text → Text) → Attempt → DownloadOptions → ℕ → ℕ → Text → Outcome
verify_file hash a opts attempt final_size content =
    let done : DownloadResult = record {
      path = opts.dest_path;
      size = final_size;
      sha256 = hash content;
      resumed = false;
      attempts = attempt;
    } in
    if not a.can_hash
    then (err hash_failed, some content)
    else if not (is_empty opts.expected_checksum)
    then (if hash content == opts.expected_checksum
        then (ok done, some content)
        else (err (checksum_mismatch (hash content)), remove_file a (some content)))
    else if ltb 0 opts.expected_size && not (final_size == opts.expected_size)
    then (err (size_mismatch final_size), remove_file a (some content))
    else (ok done, some content)

-- downloadAttempt, from the reply on
unfoldable pub take_reply :
    (Text → Text) → Attempt → DownloadOptions → ℕ → ℕ → Text → Reply → Outcome
take_reply hash a opts attempt file_size old (no_response by_context) =
    (err (request_failed by_context), some old)
take_reply hash a opts attempt file_size old (response status body end) =
    let content = written a status file_size body old in
    let checked =
      verify_file hash a opts attempt (counted_from status file_size + length body) content in
    if ltb status 200 || leb 300 status then (err (http_error status), some old) else elim end [
      | whole ↦ checked
      | broken by_context ↦ (err (write_failed by_context), some content)
    ]

-- shouldNotRetry
unfoldable pub should_not_retry : DownloadError → Bool
should_not_retry (http_error status) = (leb 400 status && ltb status 500) && not (status == 429)
should_not_retry e = false

-- `errors.Is` with the errors of a context
abbrev pub is_context_error : DownloadError → Bool
is_context_error (request_failed by_context) = by_context
is_context_error (write_failed by_context) = by_context
is_context_error e = false

-- The error of `file.Close`, where the attempt had none.
unfoldable pub close_file : Attempt → Outcome → Outcome
close_file a (ok r, file) = if a.can_close then (ok r, file) else (err close_failed, file)
close_file a (err e, file) = (err e, file)

-- The end of a round: the result, an error that ends the download, or the next round.
unfoldable pub after_attempt :
    Attempt
    → DownloadOptions
    → ℕ
    → Bool
    → (DownloadError → Option Text → Outcome)
    → Outcome
    → Outcome
after_attempt a opts attempt resumed next (ok r, file) =
    (ok (record r { resumed = resumed && attempt == 1 }), file)
after_attempt a opts attempt resumed next (err e, file) =
    if is_context_error e
    then (err e, file)
    else if should_not_retry e
    then (err e, remove_file a file)
    else if ltb attempt opts.retry_count && a.is_done_waiting
    then (err cancelled, file)
    else next e file

-- One round, with what follows it.
unfoldable pub one_round :
    (Text → Text)
    → Attempt
    → DownloadOptions
    → ℕ
    → (Bool → DownloadError → Option Text → Outcome)
    → Option Text
    → ℕ × Bool × Option Text
    → Outcome
one_round hash a opts attempt next file (file_size, resumed, found) =
    if a.is_done
    then (err cancelled, file)
    else if not a.can_make_dir
    then next resumed make_dir_failed found
    else if not a.can_open
    then next resumed open_failed found
    else after_attempt a opts attempt resumed (next resumed) (
        close_file a
          (take_reply hash a opts attempt file_size (content_of found) (a.reply file_size)))

-- The rounds that are left, from an attempt on; the file at the destination is the state.
unfoldable pub download_from :
    (Text → Text)
    → (ℕ → Attempt)
    → DownloadOptions
    → ℕ
    → ℕ
    → Bool
    → DownloadError
    → Option Text
    → Outcome
download_from hash env opts zero attempt resumed last file =
    (err (attempts_failed opts.retry_count last), file)
download_from hash env opts (suc left) attempt resumed last file =
    one_round hash (env attempt) opts attempt
      (λ r e f. download_from hash env opts left (attempt + 1) r e f) file
      (find_partial (env attempt) opts resumed file)

-- `if opts.RetryCount == 0 { opts.RetryCount = 3 }`
abbrev pub with_retries : DownloadOptions → DownloadOptions
with_retries opts = if opts.retry_count == 0 then record opts { retry_count = 3 } else opts

-- Download
unfoldable pub download : (Text → Text) → (ℕ → Attempt) → DownloadOptions → Option Text → Outcome
download hash env opts file =
    let o = with_retries opts in download_from hash env o o.retry_count 1 false no_error file
