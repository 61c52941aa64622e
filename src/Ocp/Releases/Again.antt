-- ===== src/Ocp/Releases/Again.antt =====
-- A result that was fetched is given again.
use ocp_offline.Prelude.{
  ◌+◌, ◌<◌, nat_eq, Text, text_eq, text_beq_iff, List, none, some, Result, ok, err, ◌≡◌, refl, ap,
  lt→ltb, is_empty, Map, lookup, lookup-insert, Sorter, Bool-cases, ok-injective, inl, inr,
}
use ocp_offline.Ocp.Releases.{
  GraphNode, ReleasesResult, GraphEnv, GraphEntry, FetchError, graph_nodes, graph_url, remember,
  fresh_entry, fetch_releases, graph_cache_ttl,
}

module _ (sorter : Sorter) where
  remember-again :
      (channel : Text) (env later : GraphEnv) (cache : Map GraphEntry)
      (nodes : Result FetchError (List GraphNode)) (r : ReleasesResult)
      → (remember sorter env channel cache nodes).0 ≡ ok r
      → later.start < env.finish + graph_cache_ttl
      → fresh_entry later.start (lookup channel (remember sorter env channel cache nodes).1)
        ≡ some r
  remember-again channel env later cache (err e) r h t = absurd (cc h)
  remember-again channel env later cache (ok nodes) r h t =
      let here = (text_beq_iff channel channel).1 refl in
      rw (lookup-insert channel channel _ cache, here, lt→ltb _ _ t) (ap some (ok-injective h))

  -- A result that was fetched is given again for the next hour, whatever the server would then answer,
  -- and the cache stays as it is.
  pub fetch_releases-again :
      (channel : Text) (env later : GraphEnv) (cache : Map GraphEntry) (r : ReleasesResult)
      → fresh_entry env.start (lookup channel cache) ≡ none
      → (fetch_releases sorter env channel cache).0 ≡ ok r
      → later.start < env.finish + graph_cache_ttl
      → fetch_releases sorter later channel (fetch_releases sorter env channel cache).1
        ≡ (ok r, (fetch_releases sorter env channel cache).1)
  unfolding fetch_releases
  fetch_releases-again channel env later cache r old h t = elim (Bool-cases (is_empty channel)) [
    | inl e ↦ absurd (cc (rw e at h))
    | inr e ↦
        let nodes = graph_nodes env (env.request (graph_url channel)) in
        rw (e, old, remember-again channel env later cache nodes r (rw (e, old) at h) t) refl
  ]
