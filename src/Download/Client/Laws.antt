-- ===== src/Download/Client/Laws.antt =====
-- What a download that succeeds leaves at its destination.
use ocp_offline.Prelude.{
  ℕ, zero, suc, ◌+◌, ◌≡◌, ◌<◌, refl, Text, text_eq, text_beq_iff, nat_eq, Bool, true, false, not,
  ◌&&◌, ◌||◌, Option, some, ok, err, ◌==◌, ltb, leb, if◌then◌else◌, is_empty, arith,
}
use ocp_offline.Download.Client.{
  DownloadOptions, DownloadResult, whole, broken, Reply, no_response, response, Attempt,
  DownloadError, Outcome, content_of, written, verify_file, take_reply, is_context_error,
  should_not_retry, close_file, after_attempt, one_round, find_partial, download_from, with_retries,
  download, no_error,
}

-- A result that matches the file: its hash is the file's, and the one that was asked for; where none
-- was asked for, the size it reports is the one that was asked for.
pub record Matches (hash : Text → Text) (opts : DownloadOptions) (r : DownloadResult)
    (file : Option Text) : Type 0 where
  pub content : Text
  pub on_disk : file ≡ some content
  pub hashed : r.sha256 ≡ hash content
  pub checksum : is_empty opts.expected_checksum ≡ false → hash content ≡ opts.expected_checksum
  pub size :
      is_empty opts.expected_checksum ≡ true → 0 < opts.expected_size → r.size ≡ opts.expected_size

-- An outcome that is an error, or a result that matches the file.
abbrev pub IsSound : (Text → Text) → DownloadOptions → Outcome → Type 0
IsSound hash opts (ok r, file) = Matches hash opts r file
IsSound hash opts (err e, file) = Unit

module _ (hash : Text → Text) (opts : DownloadOptions) where
  pick-IsSound :
      (b : Bool) (u v : Outcome)
      → (b ≡ true → IsSound hash opts u)
      → (b ≡ false → IsSound hash opts v)
      → IsSound hash opts (if b then u else v)
  pick-IsSound true u v h k = h refl
  pick-IsSound false u v h k = k refl

  verify_file-IsSound :
      (a : Attempt) (attempt final_size : ℕ) (content : Text)
      → IsSound hash opts (verify_file hash a opts attempt final_size content)
  unfolding verify_file
  verify_file-IsSound a attempt final_size content =
      pick-IsSound (not a.can_hash) _ _ (λ h. tt)
        (λ h.
          pick-IsSound (not (is_empty opts.expected_checksum)) _ _
            (λ given.
              pick-IsSound (hash content == opts.expected_checksum) _ _
                (λ same. record {
                  content = content;
                  on_disk = refl;
                  hashed = refl;
                  checksum = λ u. (text_beq_iff (hash content) opts.expected_checksum).0 same;
                  size = λ u. absurd (ground arith);
                })
                (λ other. tt))
            (λ none_given.
              pick-IsSound (ltb 0 opts.expected_size && not (final_size == opts.expected_size)) _ _
                (λ other. tt)
                (λ same. record {
                  content = content;
                  on_disk = refl;
                  hashed = refl;
                  checksum = λ u. absurd (ground arith);
                  size = λ u p. ground arith;
                })))

  take_reply-IsSound :
      (a : Attempt) (attempt file_size : ℕ) (old : Text) (reply : Reply)
      → IsSound hash opts (take_reply hash a opts attempt file_size old reply)
  unfolding take_reply
  take_reply-IsSound a attempt file_size old (no_response by_context) = tt
  take_reply-IsSound a attempt file_size old (response status body whole) =
      pick-IsSound (ltb status 200 || leb 300 status) _ _ (λ h. tt)
        (λ h. verify_file-IsSound a attempt _ (written a status file_size body old))
  take_reply-IsSound a attempt file_size old (response status body (broken by_context)) =
      pick-IsSound (ltb status 200 || leb 300 status) _ _ (λ h. tt) (λ h. tt)

  close_file-IsSound :
      (a : Attempt) (u : Outcome) → IsSound hash opts u → IsSound hash opts (close_file a u)
  unfolding close_file
  close_file-IsSound a (ok r, file) h = pick-IsSound a.can_close _ _ (λ e. h) (λ e. tt)
  close_file-IsSound a (err e, file) h = tt

  after_attempt-IsSound :
      (a : Attempt) (attempt : ℕ) (resumed : Bool) (next : DownloadError → Option Text → Outcome)
      (u : Outcome)
      → ((e : DownloadError) (f : Option Text) → IsSound hash opts (next e f))
      → IsSound hash opts u
      → IsSound hash opts (after_attempt a opts attempt resumed next u)
  unfolding after_attempt
  after_attempt-IsSound a attempt resumed next (ok r, file) k h = record {
    content = h.content;
    on_disk = h.on_disk;
    hashed = h.hashed;
    checksum = h.checksum;
    size = h.size;
  }
  after_attempt-IsSound a attempt resumed next (err e, file) k h =
      pick-IsSound (is_context_error e) _ _ (λ _. tt)
        (λ _.
          pick-IsSound (should_not_retry e) _ _ (λ _. tt)
            (λ _.
              pick-IsSound (ltb attempt opts.retry_count && a.is_done_waiting) _ _ (λ _. tt)
                (λ _. k e file)))

  one_round-IsSound :
      (a : Attempt) (attempt : ℕ) (next : Bool → DownloadError → Option Text → Outcome)
      (file : Option Text) (found : ℕ × Bool × Option Text)
      → ((r : Bool) (e : DownloadError) (f : Option Text) → IsSound hash opts (next r e f))
      → IsSound hash opts (one_round hash a opts attempt next file found)
  unfolding one_round
  one_round-IsSound a attempt next file (file_size, resumed, found) k =
      pick-IsSound a.is_done _ _ (λ _. tt)
        (λ _.
          pick-IsSound (not a.can_make_dir) _ _ (λ _. k resumed _ found)
            (λ _.
              pick-IsSound (not a.can_open) _ _ (λ _. k resumed _ found)
                (λ _.
                  after_attempt-IsSound a attempt resumed (next resumed) _ (λ e f. k resumed e f)
                    (close_file-IsSound a _ (
                      take_reply-IsSound a attempt file_size (content_of found)
                        (a.reply file_size))))))

  download_from-IsSound :
      (env : ℕ → Attempt) (left attempt : ℕ) (resumed : Bool) (last : DownloadError)
      (file : Option Text)
      → IsSound hash opts (download_from hash env opts left attempt resumed last file)
  unfolding download_from
  download_from-IsSound env zero attempt resumed last file = tt
  download_from-IsSound env (suc left) attempt resumed last file =
      one_round-IsSound (env attempt) attempt
        (λ r e f. download_from hash env opts left (attempt + 1) r e f) file
        (find_partial (env attempt) opts resumed file)
        (λ r e f. download_from-IsSound env left (attempt + 1) r e f)

-- The number of retries is of no matter.
Matches-retries :
    (hash : Text → Text) (opts : DownloadOptions) (r : DownloadResult) (file : Option Text)
    (b : Bool)
    → Matches hash (if b then record opts { retry_count = 3 } else opts) r file
    → Matches hash opts r file
Matches-retries hash opts r file true m = record {
  content = m.content;
  on_disk = m.on_disk;
  hashed = m.hashed;
  checksum = m.checksum;
  size = m.size;
}
Matches-retries hash opts r file false m = m

IsSound-ok :
    (hash : Text → Text) (opts : DownloadOptions) (r : DownloadResult) (u : Outcome)
    → IsSound hash opts u
    → u.0 ≡ ok r
    → Matches hash opts r u.1
IsSound-ok hash opts r (ok r', file) h e = let same : r' ≡ r = cc in rw (← same) h
IsSound-ok hash opts r (err e', file) h e = absurd (cc e)

-- Whatever the server, the disk and the context do, a download that succeeds leaves a file whose hash
-- is the one it reports and the one that was asked for; where none was asked for, the size it
-- reports is the one that was asked for.
pub download-Matches :
    (hash : Text → Text) (env : ℕ → Attempt) (opts : DownloadOptions) (file : Option Text)
    (r : DownloadResult)
    → (download hash env opts file).0 ≡ ok r
    → Matches hash opts r (download hash env opts file).1
unfolding download
download-Matches hash env opts file r h = Matches-retries hash opts r _ (opts.retry_count == 0) (
    IsSound-ok hash (with_retries opts) r
      (download_from hash env (with_retries opts) (with_retries opts).retry_count 1 false no_error
        file)
      (download_from-IsSound hash (with_retries opts) env (with_retries opts).retry_count 1 false
        no_error file)
      h)
