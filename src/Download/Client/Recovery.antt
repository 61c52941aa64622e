-- ===== src/Download/Client/Recovery.antt =====
-- A download outlasts failures that may be retried, and stops at an error that may not.
use ocp_offline.Prelude.{
  ℕ, zero, suc, ◌+◌, ◌≡◌, ◌<◌, refl, sym, subst, Text, text_eq, text_beq_iff, nat_eq, Bool, true,
  false, not, ◌&&◌, [], ◌∷◌, append-nil, Option, none, some, ok, ◌==◌, ltb, is_empty, length, arith,
  Bool-cases, inl, inr,
}
use ocp_offline.Download.Client.{
  DownloadOptions, DownloadResult, whole, no_response, response, Attempt, DownloadError,
  request_failed, Outcome, remove_file, content_of, drop_bytes, written, verify_file, take_reply,
  should_not_retry, close_file, after_attempt, one_round, find_partial, download_from, download,
  no_error,
}

-- The context is not done, and the file system does what it is asked to.
pub record IsUsable (a : Attempt) : Type 0 where
  pub not_done : a.is_done ≡ false
  pub not_done_waiting : a.is_done_waiting ≡ false
  pub stats : a.can_stat ≡ true
  pub removes : a.can_remove ≡ true
  pub makes_dir : a.can_make_dir ≡ true
  pub opens : a.can_open ≡ true
  pub truncates : a.can_truncate ≡ true
  pub hashes : a.can_hash ≡ true
  pub closes : a.can_close ≡ true

-- A round whose request is lost.
pub record IsLost (a : Attempt) : Type 0 where
  pub usable : IsUsable a
  pub lost : (n : ℕ) → a.reply n ≡ no_response false

-- A round whose request is answered in full.
pub record Serves (a : Attempt) (content : Text) : Type 0 where
  pub usable : IsUsable a
  pub served : (n : ℕ) → a.reply n ≡ response 200 content whole

-- The content has the hash that is asked for, or the size where no hash is.
pub record IsExpected (hash : Text → Text) (opts : DownloadOptions) (content : Text) : Type 0 where
  pub checksum : is_empty opts.expected_checksum ≡ false → hash content ≡ opts.expected_checksum
  pub size :
      is_empty opts.expected_checksum ≡ true
      → 0 < opts.expected_size
      → length content ≡ opts.expected_size

-- A success with this content on disk, in this attempt.
pub record Recovered (hash : Text → Text) (content : Text) (attempt : ℕ) (u : Outcome)
    : Type 0 where
  pub result : DownloadResult
  pub returned : u.0 ≡ ok result
  pub on_disk : u.1 ≡ some content
  pub hashed : result.sha256 ≡ hash content
  pub sized : result.size ≡ length content
  pub tried : result.attempts ≡ attempt

drop_bytes-nil : (s : Text) → drop_bytes s [] ≡ []
unfolding drop_bytes
drop_bytes-nil [] = refl
drop_bytes-nil (c ∷ s) = refl

-- Where the search for a partial file asks for the whole, it leaves no bytes.
abbrev StartsClean : ℕ × Bool × Option Text → Type 0
StartsClean f = f.0 ≡ 0 → content_of f.2 ≡ []

find_partial-StartsClean :
    (a : Attempt) (opts : DownloadOptions) (resumed : Bool) (file : Option Text)
    → IsUsable a
    → StartsClean (find_partial a opts resumed file)
unfolding find_partial remove_file
find_partial-StartsClean a opts resumed none u e = refl
find_partial-StartsClean a opts resumed (some []) u e = ground (arith, u.stats, u.removes)
find_partial-StartsClean a opts resumed (some (c ∷ s)) u e = ground (arith, u.stats, u.removes)

module _ (hash : Text → Text) (opts : DownloadOptions) (content : Text)
    (x : IsExpected hash opts content) where
  verified :
      (a : Attempt) (attempt : ℕ)
      → IsUsable a
      → verify_file hash a opts attempt (length content) content ≡ (
        ok (record {
          path = opts.dest_path;
          size = length content;
          sha256 = hash content;
          resumed = false;
          attempts = attempt;
        }),
        some content,
      )
  unfolding verify_file
  verified a attempt u = elim (Bool-cases (is_empty opts.expected_checksum)) [
    | inr e ↦
        rw (u.hashes, e, (text_beq_iff (hash content) opts.expected_checksum).1 (x.checksum e)) refl
    | inl e ↦
        let fits : (ltb 0 opts.expected_size && not (length content == opts.expected_size))
            ≡ false =
          ground (arith, x.size e) in
        rw (u.hashes, e, fits) refl
  ]

  written_whole :
      (a : Attempt) (file_size : ℕ) (old : Text)
      → IsUsable a
      → (file_size ≡ 0 → old ≡ [])
      → written a 200 file_size content old ≡ content
  unfolding written
  written_whole a zero old u clean = rw (clean refl, drop_bytes-nil content) (append-nil content)
  written_whole a (suc n) old u clean = ground (arith, u.truncates)

  abbrev stored : ℕ → Outcome
  stored attempt = (
    ok (record {
      path = opts.dest_path;
      size = length content;
      sha256 = hash content;
      resumed = false;
      attempts = attempt;
    }),
    some content,
  )

  replied :
      (a : Attempt) (attempt file_size : ℕ) (old : Text)
      → IsUsable a
      → (file_size ≡ 0 → old ≡ [])
      → take_reply hash a opts attempt file_size old (response 200 content whole) ≡ stored attempt
  unfolding take_reply
  replied a attempt file_size old u clean =
      let all : 0 + length content ≡ length content = omega arith in
      rw (written_whole a file_size old u clean) (
        subst (λ n. verify_file hash a opts attempt n content ≡ stored attempt) (sym all)
          (verified a attempt u))

  -- A round that is served ends the download.
  round_served :
      (a : Attempt) (attempt : ℕ) (next : Bool → DownloadError → Option Text → Outcome)
      (file : Option Text) (found : ℕ × Bool × Option Text)
      → Serves a content
      → StartsClean found
      → Recovered hash content attempt (one_round hash a opts attempt next file found)
  unfolding one_round
  round_served a attempt next file (file_size, resumed, found) v clean =
      simp
        (
          v.usable.not_done,
          v.usable.makes_dir,
          v.usable.opens,
          v.served file_size,
          replied a attempt file_size (content_of found) v.usable clean,
        )
        (unfold close_file after_attempt in
          simp v.usable.closes (record {
            result = record {
              path = opts.dest_path;
              size = length content;
              sha256 = hash content;
              resumed = resumed && attempt == 1;
              attempts = attempt;
            };
            returned = refl;
            on_disk = refl;
            hashed = refl;
            sized = refl;
            tried = refl;
          }))

  -- A round that is lost goes on to the next.
  round_lost :
      (a : Attempt) (attempt : ℕ) (next : Bool → DownloadError → Option Text → Outcome)
      (file : Option Text) (found : ℕ × Bool × Option Text)
      → IsLost a
      → one_round hash a opts attempt next file found
        ≡ next found.1 (request_failed false) (some (content_of found.2))
  unfolding one_round
  round_lost a attempt next file (file_size, resumed, found) l =
      rw (l.usable.not_done, l.usable.makes_dir, l.usable.opens, l.lost file_size)
        (unfold take_reply close_file after_attempt should_not_retry in
          ground (arith, l.usable.not_done_waiting))

  from_Recovered :
      (env : ℕ → Attempt) (j left attempt : ℕ) (resumed : Bool) (last : DownloadError)
      (file : Option Text)
      → j < left
      → ((i : ℕ) → i < j → IsLost (env (attempt + i)))
      → Serves (env (attempt + j)) content
      → Recovered hash content
          (attempt + j)
          (download_from hash env opts left attempt resumed last file)
  unfolding download_from
  from_Recovered env j zero attempt resumed last file h l v = absurd (omega arith)
  from_Recovered env zero (suc left) attempt resumed last file h l v =
      let here : attempt + 0 ≡ attempt = omega arith in
      let v' : Serves (env attempt) content = subst (λ n. Serves (env n) content) here v in
      rw here (
        round_served (env attempt) attempt _ file (find_partial (env attempt) opts resumed file) v'
          (find_partial-StartsClean (env attempt) opts resumed file v'.usable))
  from_Recovered env (suc j) (suc left) attempt resumed last file h l v =
      let here : attempt + 0 ≡ attempt = omega arith in
      let there : attempt + suc j ≡ (attempt + 1) + j = omega arith in
      let found = find_partial (env attempt) opts resumed file in
      rw
        (round_lost (env attempt) attempt
          (λ r e f. download_from hash env opts left (attempt + 1) r e f) file found
          (subst (λ n. IsLost (env n)) here (l 0 (omega arith))))
        (subst
          (λ n. Recovered hash content n (
            download_from hash env opts left (attempt + 1) found.1 (request_failed false)
              (some (content_of found.2))))
          (sym there)
          (from_Recovered env j left (attempt + 1) found.1 (request_failed false)
            (some (content_of found.2)) (omega arith)
            (λ i p. subst (λ n. IsLost (env n)) (omega arith) (l (suc i) (omega arith)))
            (subst (λ n. Serves (env n) content) there v)))

-- A download recovers: if the requests of the first attempts are lost, and one within the retry count
-- is answered with the content that is expected, on a file system that works and with no
-- cancellation, the download succeeds in that attempt and leaves the content on disk, whatever part
-- of a file was there.
pub download-Recovered :
    (hash : Text → Text) (env : ℕ → Attempt) (opts : DownloadOptions) (file : Option Text)
    (content : Text) (j : ℕ)
    → IsExpected hash opts content
    → j < opts.retry_count
    → ((i : ℕ) → i < j → IsLost (env (1 + i)))
    → Serves (env (1 + j)) content
    → Recovered hash content (1 + j) (download hash env opts file)
unfolding download
download-Recovered hash env opts file content j x h l v =
    let some_retries : (opts.retry_count == 0) ≡ false = ground arith in
    rw some_retries
      (from_Recovered hash opts content x env j opts.retry_count 1 false no_error file h l v)
