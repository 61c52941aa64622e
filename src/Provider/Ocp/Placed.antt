-- ===== src/Provider/Ocp/Placed.antt =====
-- Where the files of the plans of internal/provider/ocp go.
use ocp_offline.Prelude.{
  ◌≡◌, ◌⊎◌, ◌↔◌, refl, sym, ap, true, arith, ◌∙◌, subst, Text, List, [], ◌∷◌, ◌++◌, append_assoc,
  All, All-append, Option, none, some, ok, ok-injective,
}
use ocp_offline.Safety.Path.{is_abs, clean_relative_path, safe_join_under}
use ocp_offline.Safety.Path.Split.{join_with}
use ocp_offline.Safety.Path.Resolve.{FilePath, parse}
use ocp_offline.Safety.Path.Confined.{IsName, parse-join}
use ocp_offline.Safety.Path.Containment.{RootedCwd, rooted_path, parse_abs}
use ocp_offline.Safety.Path.Complete.{
  is_abs-render, safe_join_under-Joined, safe_join_under_complete,
}
use ocp_offline.Download.Pool.{Job}
use ocp_offline.Provider.{SyncAction}
use ocp_offline.Engine.Sync.Actions.{download_jobs, is_fetch, count_actions}
use ocp_offline.Engine.Sync.Placed.{at_path, Placed, download_jobs_iff}
use ocp_offline.Provider.Ocp.{OcpEnv, ocp_action_at}

pub action_at-put :
    (env : OcpEnv) (path local_path checksum url : Text) (found : Option Text)
    → (ocp_action_at env path local_path checksum url found).local_path ≡ local_path
unfolding ocp_action_at
action_at-put env path local_path checksum url none = refl
action_at-put env path local_path checksum url (some content) = ground arith

-- An absolute path with these elements.
pub record IsAt (ds : List Text) (q : Text) : Type 0 where
  pub names : All IsName ds
  pub absolute : is_abs q ≡ true
  pub parsed : parse q ≡ rooted_path ds

-- A path that is joined below another.
pub record Joins (ds : List Text) (q : Text) : Type 0 where
  pub first : Text
  pub others : List Text
  pub text : q ≡ at_path (ds ++ first ∷ others)
  pub at : IsAt (ds ++ first ∷ others) q

pub joined-Joins :
    (cwd : Option Text) (root q p : Text) (ds : List Text)
    → RootedCwd cwd
    → IsAt ds root
    → safe_join_under cwd root p ≡ ok q
    → Joins ds q
joined-Joins cwd root q p ds w a h =
    let j = safe_join_under-Joined cwd root p w a.absolute h in
    let same : (parse root).elements ≡ ds = ap (λ (f : FilePath). f.elements) a.parsed in
    record {
      first = j.first;
      others = j.others;
      text = subst (λ xs. q ≡ at_path (xs ++ j.first ∷ j.others)) same j.text;
      at = record {
        names = All-append IsName ds (j.first ∷ j.others) a.names j.names;
        absolute = rw j.text (is_abs-render _);
        parsed = subst (λ xs. parse q ≡ rooted_path (xs ++ j.first ∷ j.others)) same j.parsed;
      };
    }

-- What is below a directory of the output root is below the output root.
pub Placed-below :
    (ds es : List Text) (e : Text) (fs : List Text) (a : SyncAction)
    → All IsName ((ds ++ es) ++ e ∷ fs)
    → a.local_path ≡ at_path ((ds ++ es) ++ e ∷ fs)
    → Placed ds a
Placed-below ds es e fs a n t = record {
  rest = es ++ e ∷ fs;
  names = subst (All IsName) (append_assoc ds es (e ∷ fs)) n;
  put = t ∙ ap at_path (append_assoc ds es (e ∷ fs));
}

-- Names that are joined to one path are the same names.
joined_names :
    (e f : Text) (es fs : List Text)
    → All IsName (e ∷ es)
    → All IsName (f ∷ fs)
    → join_with b'/' (e ∷ es) ≡ join_with b'/' (f ∷ fs)
    → e ∷ es ≡ f ∷ fs
joined_names e f es fs n m j =
    ap (λ (p : FilePath). p.elements) (sym (parse-join e es n) ∙ ap parse j ∙ parse-join f fs m)

-- The elements of a path.
abbrev pub elements_of : Text → List Text
elements_of p = (parse p).elements

elements_of-IsName : (p : Text) → is_abs p ≡ true → All IsName (elements_of p)
elements_of-IsName p a =
    let (bs, nb, pr) = parse_abs p a in
    subst (All IsName) (sym (ap (λ (f : FilePath). f.elements) pr)) nb

module _ (cwd : Option Text) (data_dir : Text) (w : RootedCwd cwd)
    (absolute : is_abs data_dir ≡ true) (first : Text) (others : List Text) where
  -- The output root of a provider, by the names in its output directory.
  pub output-IsAt :
      (output_dir out : Text)
      → All IsName (first ∷ others)
      → clean_relative_path output_dir ≡ ok (join_with b'/' (first ∷ others))
      → safe_join_under cwd data_dir output_dir ≡ ok out
      → IsAt (elements_of data_dir ++ first ∷ others) out
  output-IsAt output_dir out names cleaned h =
      let j = safe_join_under-Joined cwd data_dir output_dir w absolute h in
      let same : j.first ∷ j.others ≡ first ∷ others =
        joined_names j.first first j.others others j.names names
          (ok-injective (sym j.cleaned ∙ cleaned)) in
      record {
        names =
            All-append IsName (elements_of data_dir) (first ∷ others)
              (elements_of-IsName data_dir absolute) names;
        absolute = rw j.text (is_abs-render _);
        parsed = subst (λ xs. parse out ≡ rooted_path (elements_of data_dir ++ xs)) same j.parsed;
      }

  -- A sync can build its downloads for files below the output directory exactly if that begins with
  -- the provider's name, or if there is nothing to fetch.
  pub sync_iff :
      (name root : Text) (as' : List SyncAction)
      → IsName name
      → safe_join_under cwd data_dir name ≡ ok root
      → All (Placed (elements_of data_dir ++ first ∷ others)) as'
      → ((jobs : List Job) × (download_jobs cwd root as' ≡ ok jobs))
        ↔ ((first ≡ name) ⊎ (count_actions is_fetch as' ≡ 0))
  unfolding join_with
  sync_iff name root as' n r h =
      let here : at_path (elements_of data_dir ++ name ∷ []) ≡ root =
        ok-injective (sym (safe_join_under_complete cwd data_dir name [] w absolute (n, tt)) ∙ r) in
      rw (← here) (
        download_jobs_iff cwd w (elements_of data_dir) name first others
          (All-append IsName (elements_of data_dir) (name ∷ [])
            (elements_of-IsName data_dir absolute) (n, tt))
          as' h)
