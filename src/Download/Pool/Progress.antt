-- ===== src/Download/Pool/Progress.antt =====
-- A pool comes to its end.
use ocp_offline.Prelude.{
  ℕ, zero, suc, ◌+◌, ◌*◌, ◌≡◌, ◌<◌, ◌≤◌, ◌⊎◌, inl, inr, refl, ap, List, [], ◌∷◌, Result, length,
  length-append, if◌then◌else◌, arith, Bool-cases,
}
use ocp_offline.Download.Client.{DownloadResult, DownloadError}
use ocp_offline.Download.Pool.{
  Job, Pool, pool_workers, indices, start_pool, PoolStep, send, stop, cancel, begin, finish,
  abandon, leave, PoolRun, here, next, IsOver,
}

-- What is left to do, in steps at most.
abbrev pub work : Pool → ℕ
work p =
    4 * length p.to_send
    + (3 * length p.channel + (2 * length p.working + (p.idle + (if p.is_cancelled then 0 else 1))))

List-cases : {A : Type 0} (l : List A) → (l ≡ []) ⊎ ((x : A) × (xs : List A) × (l ≡ x ∷ xs))
List-cases [] = inl refl
List-cases (x ∷ xs) = inr (x, xs, refl)

ℕ-cases : (n : ℕ) → (n ≡ 0) ⊎ ((k : ℕ) × (n ≡ suc k))
ℕ-cases zero = inl refl
ℕ-cases (suc k) = inr (k, refl)

module _ (job_at : ℕ → Job) (fetch : ℕ → Result DownloadError DownloadResult) where
  step-less : (p q : Pool) → PoolStep job_at fetch p q → work q < work p
  step-less p q (send i rest e) = omega (arith, ap length e, length-append p.channel (i ∷ []))
  step-less p q (stop c e) = omega arith
  step-less p q (cancel c) = rw c (omega arith)
  step-less p q (begin i k rest c e d) = omega (arith, ap length e)
  step-less p q (finish front i behind e) =
      omega (arith, ap length e, length-append front (i ∷ behind), length-append front behind)
  step-less p q (abandon i k rest c e d) = omega (arith, ap length e)
  step-less p q (leave k s c d) = omega arith

  -- A pool that is not over has a step to take.
  step-exists : (p : Pool) → IsOver p ⊎ ((q : Pool) × PoolStep job_at fetch p q)
  step-exists p = elim (List-cases p.working) [
    | inr (i, rest, e) ↦ inr (_, finish [] i rest e)
    | inl w ↦ elim (ℕ-cases p.idle) [
      | inl z ↦ inl (z, w)
      | inr (k, d) ↦ elim (List-cases p.channel) [
        | inl c ↦ elim (List-cases p.to_send) [
          | inl s ↦ inr (_, leave k s c d)
          | inr (i, rest, s) ↦ inr (_, send i rest s)
        ]
        | inr (i, rest, c) ↦ elim (Bool-cases p.is_cancelled) [
          | inl x ↦ inr (_, abandon i k rest x c d)
          | inr x ↦ inr (_, begin i k rest x c d)
        ]
      ]
    ]
  ]

  abbrev pub steps : {p q : Pool} → PoolRun job_at fetch p q → ℕ
  steps here = 0
  steps (next run step) = suc (steps run)

  run-less : (p q : Pool) (run : PoolRun job_at fetch p q) → steps run + work q ≤ work p
  run-less p q here = omega arith
  run-less p r (next {q} run step) = omega (arith, run-less p q run, step-less q r step)

  first_step :
      {p q r : Pool}
      → PoolStep job_at fetch p q
      → PoolRun job_at fetch q r
      → PoolRun job_at fetch p r
  first_step step here = next here step
  first_step step (next run last) = next (first_step step run) last

  -- The end that a step leads to.
  end_after :
      {p q : Pool}
      → PoolStep job_at fetch p q
      → ((r : Pool) × PoolRun job_at fetch q r × IsOver r)
      → (r : Pool) × PoolRun job_at fetch p r × IsOver r
  end_after step (r, run, over) = (r, first_step step run, over)

  end_within :
      (fuel : ℕ) (p : Pool) → work p < fuel → (q : Pool) × PoolRun job_at fetch p q × IsOver q
  end_within zero p h = absurd (omega arith)
  end_within (suc fuel) p h = elim (step-exists p) [
    | inl over ↦ (p, here, over)
    | inr (q, step) ↦ end_after step (end_within fuel q (omega (arith, step-less p q step)))
  ]

length-indices : (k n : ℕ) → length (indices k n) ≡ n
length-indices k zero = refl
length-indices k (suc n) = ap (λ m. suc m) (length-indices (suc k) n)

-- A pool always ends, cancelled or not: a run of `n` jobs takes at most 4 * n + 1 steps and one for
-- each worker, and from wherever it stands there is a way to its end.
pub pool-ends :
    (job_at : ℕ → Job) (fetch : ℕ → Result DownloadError DownloadResult) (workers n : ℕ) (p : Pool)
    (run : PoolRun job_at fetch (start_pool workers n) p)
    → (steps job_at fetch run ≤ 4 * n + (pool_workers workers + 1))
      × ((q : Pool) × PoolRun job_at fetch p q × IsOver q)
unfolding start_pool
pool-ends job_at fetch workers n p run = (
  omega (arith, run-less job_at fetch (start_pool workers n) p run, length-indices 0 n),
  end_within job_at fetch (suc (work p)) p (omega arith),
)
