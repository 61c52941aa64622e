-- ===== src/Download/Pool/Order.antt =====
-- The results of a pool come in the order of its jobs, in whatever order the workers end them.
use ocp_offline.Prelude.{
  ℕ, zero, suc, ◌+◌, ◌≡◌, ◌<◌, ◌⊎◌, inl, inr, ◌∙◌, refl, sym, ap, subst, Bool, true, false, List,
  [], ◌∷◌, ◌++◌, map, append_assoc, append-nil, Result, ok, err, ltb, length, length-append,
  sort_by, insert_sorted, arith, Bool-cases,
}
use ocp_offline.Download.Client.{DownloadResult, DownloadError}
use ocp_offline.Download.Pool.{
  Job, PoolResult, pool_workers, job_result, Pool, indices, start_pool, result_at, PoolStep, send,
  stop, cancel, begin, finish, abandon, leave, PoolRun, here, next, IsOver, collected,
}

pool_workers_pos : (w : ℕ) → 0 < pool_workers w
unfolding pool_workers
pool_workers_pos w = ground arith

abbrev sorted : List ℕ → List ℕ
sorted = sort_by ltb

insert_comm :
    (x y : ℕ) (zs : List ℕ)
    → insert_sorted ltb x (insert_sorted ltb y zs) ≡ insert_sorted ltb y (insert_sorted ltb x zs)
unfolding insert_sorted
insert_comm x y [] = ground arith
insert_comm x y (z ∷ zs) = ground (arith, insert_comm x y zs)

sorted-move :
    (xs : List ℕ) (y : ℕ) (ys : List ℕ)
    → sorted (xs ++ y ∷ ys) ≡ insert_sorted ltb y (sorted (xs ++ ys))
unfolding sort_by
sorted-move [] y ys = refl
sorted-move (x ∷ xs) y ys =
    ap (λ l. insert_sorted ltb x l) (sorted-move xs y ys) ∙ insert_comm x y (sorted (xs ++ ys))

sorted-moved :
    (xs zs : List ℕ) (y : ℕ) (ys : List ℕ)
    → sorted (xs ++ y ∷ (zs ++ ys)) ≡ sorted (xs ++ (zs ++ y ∷ ys))
sorted-moved xs zs y ys =
    sorted-move xs y (zs ++ ys)
    ∙ ap (λ l. insert_sorted ltb y (sorted l)) (sym (append_assoc xs zs ys))
    ∙ sym (sorted-move (xs ++ zs) y ys)
    ∙ ap sorted (append_assoc xs zs (y ∷ ys))

sorted-indices : (k n : ℕ) → sorted (indices k n) ≡ indices k n
unfolding sort_by insert_sorted
sorted-indices k zero = refl
sorted-indices k (suc zero) = refl
sorted-indices k (suc (suc n)) =
    ap (λ l. insert_sorted ltb k l) (sorted-indices (suc k) (suc n)) ∙ ground arith

module _ (job_at : ℕ → Job) (fetch : ℕ → Result DownloadError DownloadResult) where
  abbrev res : ℕ → PoolResult
  res = result_at job_at fetch

  index-result :
      (i : ℕ) (r : Result DownloadError DownloadResult) → (job_result (job_at i) i r).index ≡ i
  unfolding job_result
  index-result i (ok r) = refl
  index-result i (err e) = refl

  abbrev by_index : PoolResult → PoolResult → Bool
  by_index a b = ltb a.index b.index

  insert-map :
      (i : ℕ) (js : List ℕ)
      → insert_sorted by_index (res i) (map res js) ≡ map res (insert_sorted ltb i js)
  unfolding insert_sorted result_at
  insert-map i [] = refl
  insert-map i (j ∷ js) =
      let same : ltb (res i).index (res j).index ≡ ltb i j =
        ap (λ n. ltb n (res j).index) (index-result i (fetch i))
        ∙ ap (λ n. ltb i n) (index-result j (fetch j)) in
      elim (Bool-cases (ltb i j)) [
        | inl e ↦ rw (same, e) refl
        | inr e ↦ rw (same, e) (ap (λ l. res j ∷ l) (insert-map i js))
      ]

  sort-map : (is' : List ℕ) → sort_by by_index (map res is') ≡ map res (sorted is')
  unfolding sort_by
  sort-map [] = refl
  sort-map (i ∷ is') =
      ap (λ l. insert_sorted by_index (res i) l) (sort-map is') ∙ insert-map i (sorted is')

  -- The jobs that no worker has ended.
  abbrev pending : Pool → List ℕ
  pending p = p.working ++ (p.channel ++ p.to_send)

  -- Nothing is lost: what was ended and what is pending are the jobs, and while a worker may still
  -- be needed none has left.
  record Tracks (workers n : ℕ) (p : Pool) : Type 0 where
    ended : List ℕ
    results_of : p.results ≡ map res ended
    jobs : sorted (ended ++ pending p) ≡ indices 0 n
    staffed : (p.idle + length p.working ≡ workers) ⊎ ((p.to_send ≡ []) × (p.channel ≡ []))

  abbrev IsTracked : ℕ → ℕ → Pool → Type 0
  IsTracked workers n p = (p.is_cancelled ≡ true) ⊎ Tracks workers n p

  map-append_one : (is' : List ℕ) (i : ℕ) → map res is' ++ res i ∷ [] ≡ map res (is' ++ i ∷ [])
  map-append_one [] i = refl
  map-append_one (j ∷ js) i = ap (λ l. res j ∷ l) (map-append_one js i)

  begin-Tracks :
      (workers n : ℕ) (p : Pool) (i k : ℕ) (rest : List ℕ)
      → p.channel ≡ i ∷ rest
      → p.idle ≡ suc k
      → Tracks workers n p
      → Tracks workers n (record p { channel = rest; idle = k; working = i ∷ p.working })
  begin-Tracks workers n p i k rest c d t = record {
    ended = t.ended;
    results_of = t.results_of;
    jobs =
        sorted-moved t.ended p.working i (rest ++ p.to_send)
        ∙ subst (λ l. sorted (t.ended ++ (p.working ++ (l ++ p.to_send))) ≡ indices 0 n) c t.jobs;
    staffed = elim t.staffed [
      | inl e ↦ inl (omega (arith, e, d))
      | inr (x, y) ↦ absurd (cc (c, y))
    ];
  }

  finish-Tracks :
      (workers n : ℕ) (p : Pool) (front : List ℕ) (i : ℕ) (behind : List ℕ)
      → p.working ≡ front ++ i ∷ behind
      → Tracks workers n p
      → Tracks workers n (record p {
        working = front ++ behind;
        idle = suc p.idle;
        results = p.results ++ res i ∷ [];
      })
  finish-Tracks workers n p front i behind e t = record {
    ended = t.ended ++ i ∷ [];
    results_of = ap (λ l. l ++ res i ∷ []) t.results_of ∙ map-append_one t.ended i;
    jobs =
        simp append_assoc (sorted-moved t.ended front i (behind ++ (p.channel ++ p.to_send)))
        ∙ ap (λ l. sorted (t.ended ++ l))
            (sym (append_assoc front (i ∷ behind) (p.channel ++ p.to_send)))
        ∙ subst (λ l. sorted (t.ended ++ (l ++ (p.channel ++ p.to_send))) ≡ indices 0 n) e t.jobs;
    staffed = elim t.staffed [
      | inl h ↦ inl (
          omega
            (arith, h, ap length e, length-append front (i ∷ behind), length-append front behind))
      | inr h ↦ inr h
    ];
  }

  send-Tracks :
      (workers n : ℕ) (p : Pool) (i : ℕ) (rest : List ℕ)
      → p.to_send ≡ i ∷ rest
      → Tracks workers n p
      → Tracks workers n (record p { to_send = rest; channel = p.channel ++ i ∷ [] })
  send-Tracks workers n p i rest e t = record {
    ended = t.ended;
    results_of = t.results_of;
    jobs =
        ap (λ l. sorted (t.ended ++ (p.working ++ l))) (append_assoc p.channel (i ∷ []) rest)
        ∙ subst (λ l. sorted (t.ended ++ (p.working ++ (p.channel ++ l))) ≡ indices 0 n) e t.jobs;
    staffed = elim t.staffed [ inl h ↦ inl h | inr (x, y) ↦ absurd (cc (e, x)) ];
  }

  step-IsTracked :
      (workers n : ℕ) (p q : Pool)
      → PoolStep job_at fetch p q
      → IsTracked workers n p
      → IsTracked workers n q
  step-IsTracked workers n p q (send i rest e) (inl c) = inl c
  step-IsTracked workers n p q (send i rest e) (inr t) = inr (send-Tracks workers n p i rest e t)
  step-IsTracked workers n p q (stop c e) t = inl c
  step-IsTracked workers n p q (cancel c) t = inl refl
  step-IsTracked workers n p q (begin i k rest c e d) (inl x) = inl x
  step-IsTracked workers n p q (begin i k rest c e d) (inr t) =
      inr (begin-Tracks workers n p i k rest e d t)
  step-IsTracked workers n p q (finish front i behind e) (inl c) = inl c
  step-IsTracked workers n p q (finish front i behind e) (inr t) =
      inr (finish-Tracks workers n p front i behind e t)
  step-IsTracked workers n p q (abandon i k rest c e d) t = inl c
  step-IsTracked workers n p q (leave k s c d) (inl x) = inl x
  step-IsTracked workers n p q (leave k s c d) (inr t) =
      inr
        (record { ended = t.ended; results_of = t.results_of; jobs = t.jobs; staffed = inr (s, c) })

  start-Tracks : (w n : ℕ) → Tracks (pool_workers w) n (start_pool w n)
  unfolding start_pool
  start-Tracks w n = record {
    ended = [];
    results_of = refl;
    jobs = sorted-indices 0 n;
    staffed = inl (omega arith);
  }

  run-IsTracked :
      (workers n : ℕ) (p q : Pool)
      → PoolRun job_at fetch p q
      → IsTracked workers n p
      → IsTracked workers n q
  run-IsTracked workers n p q here t = t
  run-IsTracked workers n p r (next {q} run step) t =
      step-IsTracked workers n q r step (run-IsTracked workers n p q run t)

  pending-nil : (p : Pool) → p.working ≡ [] → p.channel ≡ [] → p.to_send ≡ [] → pending p ≡ []
  pending-nil p a b c = ap (λ l. l ++ (p.channel ++ p.to_send)) a ∙ ap (λ l. l ++ p.to_send) b ∙ c

  -- The last worker leaves only when there is nothing to send or to take.
  drained :
      (w n : ℕ) (p : Pool)
      → Tracks (pool_workers w) n p
      → IsOver p
      → (p.to_send ≡ []) × (p.channel ≡ [])
  drained w n p t (idle, none_working) = elim t.staffed [
    | inl e ↦ absurd (omega (arith, e, idle, ap length none_working, pool_workers_pos w))
    | inr d ↦ d
  ]

  over-collected :
      (w n : ℕ) (p : Pool)
      → Tracks (pool_workers w) n p
      → IsOver p
      → collected p ≡ map res (indices 0 n)
  unfolding collected
  over-collected w n p t over =
      let (all_sent, all_taken) = drained w n p t over in
      let ended_all : sorted t.ended ≡ indices 0 n =
        ap sorted (sym (append-nil t.ended))
        ∙ ap (λ l. sorted (t.ended ++ l)) (sym (pending-nil p over.1 all_taken all_sent))
        ∙ t.jobs in
      ap (λ l. sort_by by_index l) t.results_of ∙ sort-map t.ended ∙ ap (λ l. map res l) ended_all

-- A pool that is over, and was not cancelled, returns the results of all its jobs in their order,
-- whatever the number of workers and whichever job each of them took and ended when.
pub pool-in_order :
    (job_at : ℕ → Job) (fetch : ℕ → Result DownloadError DownloadResult) (workers n : ℕ) (p : Pool)
    → PoolRun job_at fetch (start_pool workers n) p
    → IsOver p
    → p.is_cancelled ≡ false
    → collected p ≡ map (result_at job_at fetch) (indices 0 n)
pool-in_order job_at fetch workers n p run over c =
    elim (run-IsTracked job_at fetch (pool_workers workers) n (start_pool workers n) p run
      (inr (start-Tracks job_at fetch workers n))) [
        | inl x ↦ absurd (cc (x, c))
        | inr t ↦ over-collected job_at fetch workers n p t over
      ]
