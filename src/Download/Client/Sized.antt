-- ===== src/Download/Client/Sized.antt =====
-- The size of the file that a download leaves.
use ocp_offline.Prelude.{
  ℕ, zero, suc, ◌+◌, ◌≡◌, refl, Text, text_eq, nat_eq, Bool, true, false, not, ◌&&◌, ◌||◌, Option,
  none, some, [], ◌∷◌, ok, err, ◌==◌, ltb, leb, if◌then◌else◌, is_empty, arith, length,
  length-append, append-nil,
}
use ocp_offline.Download.Client.{
  DownloadOptions, DownloadResult, whole, broken, Reply, no_response, response, Attempt,
  DownloadError, Outcome, content_of, drop_bytes, written, verify_file, take_reply,
  is_context_error, should_not_retry, close_file, after_attempt, one_round, find_partial,
  remove_file, counted_from, download_from, with_retries, download, no_error,
}

-- A file at the destination can always be looked at, removed and truncated.
pub record IsHandled (env : ℕ → Attempt) : Type 0 where
  pub stats : (n : ℕ) → (env n).can_stat ≡ true
  pub removes : (n : ℕ) → (env n).can_remove ≡ true
  pub truncates : (n : ℕ) → (env n).can_truncate ≡ true

-- The file that is left has this size.
abbrev pub HasSize : ℕ → Option Text → Type 0
HasSize n file = (content : Text) × (file ≡ some content) × (length content ≡ n)

-- An outcome that is an error, or whose result has the size of the file.
abbrev pub IsSized : Outcome → Type 0
IsSized (ok r, file) = HasSize r.size file
IsSized (err e, file) = Unit

pick-IsSized : (b : Bool) (u v : Outcome) → IsSized u → IsSized v → IsSized (if b then u else v)
pick-IsSized true u v h k = h
pick-IsSized false u v h k = k

drop_bytes-nil : (body : Text) → drop_bytes body [] ≡ []
unfolding drop_bytes
drop_bytes-nil [] = refl
drop_bytes-nil (c ∷ body) = refl

length-zero : (t : Text) → length t ≡ 0 → t ≡ []
length-zero [] h = refl
length-zero (c ∷ t) h = absurd (omega (arith, h))

-- What is written behind the bytes that a round found.
length-written :
    (a : Attempt) (status file_size : ℕ) (body old : Text)
    → a.can_truncate ≡ true
    → length old ≡ file_size
    → length (written a status file_size body old) ≡ counted_from status file_size + length body
unfolding written
length-written a status zero body old t h =
    let none_old : old ≡ [] = length-zero old h in
    rw (none_old, drop_bytes-nil body, append-nil body) (ground arith)
length-written a status (suc n) body old t h = ground (arith, t, length-append old body)

module _ (hash : Text → Text) (opts : DownloadOptions) where
  verify_file-IsSized :
      (a : Attempt) (attempt final_size : ℕ) (content : Text)
      → length content ≡ final_size
      → IsSized (verify_file hash a opts attempt final_size content)
  unfolding verify_file
  verify_file-IsSized a attempt final_size content h = pick-IsSized (not a.can_hash) _ _ tt (
      pick-IsSized (not (is_empty opts.expected_checksum)) _ _
        (pick-IsSized (hash content == opts.expected_checksum) _ _ (content, refl, h) tt)
        (pick-IsSized (ltb 0 opts.expected_size && not (final_size == opts.expected_size)) _ _ tt
          (content, refl, h)))

  take_reply-IsSized :
      (a : Attempt) (attempt file_size : ℕ) (old : Text) (reply : Reply)
      → a.can_truncate ≡ true
      → length old ≡ file_size
      → IsSized (take_reply hash a opts attempt file_size old reply)
  unfolding take_reply
  take_reply-IsSized a attempt file_size old (no_response by_context) t h = tt
  take_reply-IsSized a attempt file_size old (response status body whole) t h =
      pick-IsSized (ltb status 200 || leb 300 status) _ _ tt (
        verify_file-IsSized a attempt _ (written a status file_size body old)
          (length-written a status file_size body old t h))
  take_reply-IsSized a attempt file_size old (response status body (broken by_context)) t h =
      pick-IsSized (ltb status 200 || leb 300 status) _ _ tt tt

  close_file-IsSized : (a : Attempt) (u : Outcome) → IsSized u → IsSized (close_file a u)
  unfolding close_file
  close_file-IsSized a (ok r, file) h = pick-IsSized a.can_close _ _ h tt
  close_file-IsSized a (err e, file) h = tt

  after_attempt-IsSized :
      (a : Attempt) (attempt : ℕ) (resumed : Bool) (next : DownloadError → Option Text → Outcome)
      (u : Outcome)
      → ((e : DownloadError) (f : Option Text) → IsSized (next e f))
      → IsSized u
      → IsSized (after_attempt a opts attempt resumed next u)
  unfolding after_attempt
  after_attempt-IsSized a attempt resumed next (ok r, file) k h = h
  after_attempt-IsSized a attempt resumed next (err e, file) k h =
      pick-IsSized (is_context_error e) _ _ tt (
        pick-IsSized (should_not_retry e) _ _ tt
          (pick-IsSized (ltb attempt opts.retry_count && a.is_done_waiting) _ _ tt (k e file)))

  -- The bytes that a round found are the file's, all of them.
  length-found :
      (a : Attempt) (resumed : Bool) (file : Option Text)
      → a.can_stat ≡ true
      → a.can_remove ≡ true
      → length (content_of (find_partial a opts resumed file).2)
        ≡ (find_partial a opts resumed file).0
  unfolding find_partial remove_file
  length-found a resumed none s r = refl
  length-found a resumed (some content) s r = rw (s, r) (ground arith)

  one_round-IsSized :
      (a : Attempt) (attempt : ℕ) (next : Bool → DownloadError → Option Text → Outcome)
      (file : Option Text) (found : ℕ × Bool × Option Text)
      → a.can_truncate ≡ true
      → length (content_of found.2) ≡ found.0
      → ((r : Bool) (e : DownloadError) (f : Option Text) → IsSized (next r e f))
      → IsSized (one_round hash a opts attempt next file found)
  unfolding one_round
  one_round-IsSized a attempt next file (file_size, resumed, found) t h k =
      pick-IsSized a.is_done _ _ tt (
        pick-IsSized (not a.can_make_dir) _ _ (k resumed _ found) (
          pick-IsSized (not a.can_open) _ _ (k resumed _ found) (
            after_attempt-IsSized a attempt resumed (next resumed) _ (λ e f. k resumed e f)
              (close_file-IsSized a _ (
                take_reply-IsSized a attempt file_size (content_of found) (a.reply file_size) t
                  h)))))

  download_from-IsSized :
      (env : ℕ → Attempt) (left attempt : ℕ) (resumed : Bool) (last : DownloadError)
      (file : Option Text)
      → IsHandled env
      → IsSized (download_from hash env opts left attempt resumed last file)
  unfolding download_from
  download_from-IsSized env zero attempt resumed last file w = tt
  download_from-IsSized env (suc left) attempt resumed last file w =
      one_round-IsSized (env attempt) attempt
        (λ r e f. download_from hash env opts left (attempt + 1) r e f) file
        (find_partial (env attempt) opts resumed file) (w.truncates attempt)
        (length-found (env attempt) resumed file (w.stats attempt) (w.removes attempt))
        (λ r e f. download_from-IsSized env left (attempt + 1) r e f w)

  IsSized-ok : (u : Outcome) (r : DownloadResult) → IsSized u → u.0 ≡ ok r → HasSize r.size u.1
  IsSized-ok (ok r', file) r h e = let same : r' ≡ r = cc in rw (← same) h
  IsSized-ok (err e', file) r h e = absurd (cc e)

-- Where a file at the destination can always be looked at, removed and truncated, a download that
-- succeeds leaves a file whose size is the one it reports, whatever was there before and whatever
-- the server and the context do.
pub download-HasSize :
    (hash : Text → Text) (env : ℕ → Attempt) (opts : DownloadOptions) (file : Option Text)
    (r : DownloadResult)
    → IsHandled env
    → (download hash env opts file).0 ≡ ok r
    → HasSize r.size (download hash env opts file).1
unfolding download
download-HasSize hash env opts file r w h =
    let o : DownloadOptions = with_retries opts in
    IsSized-ok hash o _ r (download_from-IsSized hash o env o.retry_count 1 false no_error file w) h
