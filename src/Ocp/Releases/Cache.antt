-- ===== src/Ocp/Releases/Cache.antt =====
-- Where the answers of FetchReleases come from.
use ocp_offline.Prelude.{
  ℕ, ◌+◌, ◌<◌, ◌⊎◌, ◌∙◌, [], ◌∷◌, ◌++◌, append_assoc, append-nil, arith, nat_eq, Text, text_eq,
  text_beq_iff, List, Option, none, some, Result, ok, err, ◌≡◌, refl, ap, ltb, ◌==◌, is_empty, Map,
  lookup, insert, lookup-insert, Sorter, Bool-cases, Option-cases, ok-injective, subst, inl, inr,
}
use ocp_offline.Provider.Epel.Metadata.{HttpReply, lost, answered}
use ocp_offline.Ocp.Releases.{
  GraphNode, ReleasesResult, GraphEnv, GraphEntry, FetchError, graph_nodes, graph_url, remember,
  answer, fresh_entry, fetch_releases, graph_cache_ttl, filter_and_sort_releases,
}

fresh_entry-some :
    (now : ℕ) (entry : GraphEntry) (r : ReleasesResult)
    → fresh_entry now (some entry) ≡ some r
    → (entry.result ≡ r) × (now < entry.expiry)
fresh_entry-some now entry r h = elim (Bool-cases (ltb now entry.expiry)) [
  | inl e ↦ (cc (rw e at h), ground (arith, e))
  | inr e ↦ absurd (cc (rw e at h))
]

graph_nodes-answered :
    (env : GraphEnv) (reply : HttpReply) (nodes : List GraphNode)
    → graph_nodes env reply ≡ ok nodes
    → (body : Text) × (reply ≡ answered 200 (some body)) × (env.decode_graph body ≡ some nodes)
graph_nodes-answered env lost nodes h = absurd (cc h)
graph_nodes-answered env (answered status none) nodes h = elim (Bool-cases (status == 200)) [
  | inl e ↦ absurd (cc (rw e at h))
  | inr e ↦ absurd (cc (rw e at h))
]
graph_nodes-answered env (answered status (some body)) nodes h = elim (Bool-cases (status == 200)) [
  | inr e ↦ absurd (cc (rw e at h))
  | inl e ↦ elim (Option-cases (env.decode_graph body)) [
    | inl d ↦ absurd (cc (rw (e, d) at h))
    | inr (decoded, d) ↦
        let is : status ≡ 200 = ground (arith, e) in
        let same : decoded ≡ nodes = ok-injective (rw (e, d) at h) in
        (body, ap (λ n. answered n (some body)) is, d ∙ ap some same)
  ]
]

-- The calls of FetchReleases so far, the first one first: the channel, and what the call meets.
abbrev pub Calls : Type 0
Calls = List (Text × GraphEnv)

-- The cache behind some calls.
unfoldable pub fetch_all : Sorter → Calls → Map GraphEntry → Map GraphEntry
fetch_all sorter [] cache = cache
fetch_all sorter ((channel, env) ∷ calls) cache =
    fetch_all sorter calls (fetch_releases sorter env channel cache).1

-- One of the calls was for this channel and met this.
abbrev pub Asked : Calls → Text → GraphEnv → Type 0
Asked calls channel env =
    (before : Calls) × (after : Calls) × (calls ≡ before ++ (channel, env) ∷ after)

Asked-snoc :
    (calls : Calls) (call : Text × GraphEnv) (channel : Text) (env : GraphEnv)
    → Asked calls channel env
    → Asked (calls ++ call ∷ []) channel env
Asked-snoc calls call channel env (before, after, e) = (
  before,
  after ++ call ∷ [],
  ap (λ cs. cs ++ call ∷ []) e ∙ append_assoc before ((channel, env) ∷ after) (call ∷ []),
)

module _ (sorter : Sorter) where
  -- A result is what filterAndSortReleases makes of the nodes that the server sent in a call.
  pub record Served (channel : Text) (env : GraphEnv) (r : ReleasesResult) : Type 0 where
    pub body : Text
    pub nodes : List GraphNode
    pub replied : env.request (graph_url channel) ≡ answered 200 (some body)
    pub decoded : env.decode_graph body ≡ some nodes
    pub made : r ≡ filter_and_sort_releases sorter channel nodes

  -- A call before sent it.
  abbrev pub Remembered : Calls → Text → GraphEntry → Type 0
  Remembered calls channel entry =
      (past : GraphEnv) × Asked calls channel past
      × Served channel past entry.result
      × (entry.expiry ≡ past.finish + graph_cache_ttl)

  abbrev IsKept : Calls → Map GraphEntry → Type 0
  IsKept calls cache =
      (channel : Text) (entry : GraphEntry)
      → lookup channel cache ≡ some entry
      → Remembered calls channel entry

  -- Where an answer comes from: this call, or one before it whose result has not expired.
  abbrev pub IsServed : Calls → Text → GraphEnv → ReleasesResult → Type 0
  IsServed calls channel env r =
      Served channel env r
      ⊎ ((past : GraphEnv) × Asked calls channel past
          × Served channel past r
          × (env.start < past.finish + graph_cache_ttl))

  module _ (channel : Text) (env : GraphEnv) (calls : Calls) (cache : Map GraphEntry) where
    abbrev later_calls : Calls
    later_calls = calls ++ (channel, env) ∷ []

    snoc-IsKept : IsKept calls cache → IsKept later_calls cache
    snoc-IsKept h other entry k =
        let (past, asked, served, expiry) = h other entry k in
        (past, Asked-snoc calls (channel, env) other past asked, served, expiry)

    insert-IsKept :
        (entry : GraphEntry)
        → IsKept calls cache
        → Remembered later_calls channel entry
        → IsKept later_calls (insert channel entry cache)
    insert-IsKept entry h found other e k = elim (Bool-cases (channel == other)) [
      | inl p ↦
          let same = (text_beq_iff channel other).0 p in
          let is : entry ≡ e = cc (lookup-insert channel other entry cache, p, k) in
          rw (← same, ← is) found
      | inr p ↦ snoc-IsKept h other e (cc (lookup-insert channel other entry cache, p, k))
    ]

    abbrev Sound : Result FetchError ReleasesResult × Map GraphEntry → Type 0
    Sound (found, after) =
        IsKept later_calls after
        × ((r : ReleasesResult) → found ≡ ok r → IsServed calls channel env r)

    remember-Sound :
        (nodes : Result FetchError (List GraphNode))
        → graph_nodes env (env.request (graph_url channel)) ≡ nodes
        → IsKept calls cache
        → Sound (remember sorter env channel cache nodes)
    remember-Sound (err e) g h = (snoc-IsKept h, λ r k. absurd (cc k))
    remember-Sound (ok nodes) g h =
        let (body, replied, decoded) =
          graph_nodes-answered env (env.request (graph_url channel)) nodes g in
        let served : Served channel env (filter_and_sort_releases sorter channel nodes) = record {
          body = body;
          nodes = nodes;
          replied = replied;
          decoded = decoded;
          made = refl;
        } in
        (
          insert-IsKept _ h (env, (calls, [], refl), served, refl),
          λ r k. inl (subst (λ x. Served channel env x) (ok-injective k) served),
        )

    fresh_entry-IsServed :
        (r : ReleasesResult)
        → IsKept calls cache
        → fresh_entry env.start (lookup channel cache) ≡ some r
        → IsServed calls channel env r
    fresh_entry-IsServed r h k = elim (Option-cases (lookup channel cache)) [
      | inl e ↦ absurd (cc (rw e at k))
      | inr (entry, e) ↦
          let (past, asked, served, expiry) = h channel entry e in
          let fresh = fresh_entry-some env.start entry r (rw e at k) in
          inr (
            past,
            asked,
            subst (λ x. Served channel past x) fresh.0 served,
            omega (arith, fresh.1, expiry),
          )
    ]

    answer-Sound :
        (o : Option ReleasesResult)
        → fresh_entry env.start (lookup channel cache) ≡ o
        → IsKept calls cache
        → Sound (answer sorter env channel cache o)
    answer-Sound none f h = remember-Sound _ refl h
    answer-Sound (some cached) f h = (
      snoc-IsKept h,
      λ r e.
          subst (λ x. IsServed calls channel env x) (ok-injective e)
            (fresh_entry-IsServed cached h f),
    )

    call-Sound : IsKept calls cache → Sound (fetch_releases sorter env channel cache)
    unfolding fetch_releases
    call-Sound h = elim (Bool-cases (is_empty channel)) [
      | inl e ↦ rw e (snoc-IsKept h, λ r k. absurd (cc k))
      | inr e ↦ rw e (answer-Sound _ refl h)
    ]

  fetch_all-IsKept :
      (calls done : Calls) (cache : Map GraphEntry)
      → IsKept done cache
      → IsKept (done ++ calls) (fetch_all sorter calls cache)
  unfolding fetch_all
  fetch_all-IsKept [] done cache h = rw (append-nil done) h
  fetch_all-IsKept ((channel, env) ∷ calls) done cache h =
      subst (λ cs. IsKept cs (fetch_all sorter ((channel, env) ∷ calls) cache))
        (append_assoc done ((channel, env) ∷ []) calls)
        (fetch_all-IsKept calls (done ++ (channel, env) ∷ []) _
          (call-Sound channel env done cache h).0)

  no_entries : IsKept [] []
  unfolding lookup
  no_entries other entry k = absurd (cc k)

  -- After any calls on a cache that was empty, what FetchReleases answers is what filterAndSortReleases
  -- makes of the nodes that the server sent for the asked channel: in this call, or in one of the
  -- calls before it, where this one began before an hour had passed since the end of that one.
  pub fetch_releases-Sound :
      (calls : Calls) (channel : Text) (env : GraphEnv) (r : ReleasesResult)
      → (fetch_releases sorter env channel (fetch_all sorter calls [])).0 ≡ ok r
      → IsServed calls channel env r
  fetch_releases-Sound calls channel env r h =
      (call-Sound channel env calls (fetch_all sorter calls [])
          (fetch_all-IsKept calls [] [] no_entries)).1
        r h
