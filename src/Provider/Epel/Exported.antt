-- ===== src/Provider/Epel/Exported.antt =====
-- Where a sync of a repository puts a package, and where an export looks for it.
use mathlib.Core.List.{append_cancel_left, append_cancel_right}
use ocp_offline.Prelude.{
  ℕ, ◌≡◌, ◌↔◌, refl, sym, ap, ◌∙◌, subst, Text, text_eq, Bool, true, List, [], ◌∷◌, ◌++◌,
  append_assoc, All, All-append, Option, none, some, ok, Map, lookup, ok-injective, arith,
}
use ocp_offline.Safety.Path.{clean, is_abs, clean_relative_path, safe_join_under}
use ocp_offline.Safety.Path.Split.{join_with}
use ocp_offline.Safety.Path.Resolve.{FilePath, parse, render}
use ocp_offline.Safety.Path.Confined.{IsName, parse-join}
use ocp_offline.Safety.Path.Containment.{RootedCwd, rooted_path, parse_abs, render_injective}
use ocp_offline.Safety.Path.Complete.{clean-joined, is_abs-render, safe_join_under-Joined}
use ocp_offline.Safety.Path.Relative.{clean_relative_path_idem}
use ocp_offline.Provider.{SyncAction}
use ocp_offline.Download.Client.{DownloadResult}
use ocp_offline.Engine.Export.{entry_of, join_three}
use ocp_offline.Engine.Export.Paths.{join_three-abs}
use ocp_offline.Engine.Sync.Base.{SyncEnv}
use ocp_offline.Engine.Sync.Actions.{file_record_of}
use ocp_offline.Provider.Epel.Metadata.{PackageInfo, EpelEnv}
use ocp_offline.Provider.Epel.{EpelRepo, build_action, action_at}
use ocp_offline.Provider.Epel.Agreement.{build_action-Built}

module _ (root name e l : Text) (es ls : List Text) where
  -- The paths below two directories agree just where the directories do.
  same_names :
      All IsName (name ∷ l ∷ ls)
      → All IsName (e ∷ es)
      → join_with b'/' (e ∷ es) ≡ name
      → name ∷ [] ≡ e ∷ es
  unfolding join_with
  same_names n m j =
      ap (λ (f : FilePath). f.elements)
        (sym (parse-join name [] (n.0, tt)) ∙ ap parse (sym j) ∙ parse-join e es m)

  below_iff :
      is_abs root ≡ true
      → All IsName (name ∷ l ∷ ls)
      → All IsName (e ∷ es)
      → (clean (root ++ b'/' ∷ join_with b'/' (name ∷ l ∷ ls))
          ≡ render (rooted_path (((parse root).elements ++ e ∷ es) ++ l ∷ ls)))
        ↔ (join_with b'/' (e ∷ es) ≡ name)
  unfolding join_with
  below_iff a n m =
      let (bs, nb, pr) = parse_abs root a in
      let d : List Text = (parse root).elements in
      let nd : All IsName d = rw pr nb in
      let here : clean (root ++ b'/' ∷ join_with b'/' (name ∷ l ∷ ls))
          ≡ render (rooted_path (d ++ name ∷ l ∷ ls)) =
        clean-joined root name (l ∷ ls) a n in
      (
        λ h.
            let same : d ++ name ∷ l ∷ ls ≡ (d ++ e ∷ es) ++ l ∷ ls =
              render_injective _ _
                (All-append IsName (d ++ e ∷ es) _ (All-append IsName d _ nd m) n.1)
                (All-append IsName d _ nd n) (sym here ∙ h) in
            let front : (name ∷ []) ++ l ∷ ls ≡ (e ∷ es) ++ l ∷ ls =
              append_cancel_left d _ _ (same ∙ append_assoc d (e ∷ es) (l ∷ ls)) in
            ap (λ xs. join_with b'/' xs)
              (sym (append_cancel_right (name ∷ []) (e ∷ es) (l ∷ ls) front)),
        λ j.
            subst
              (λ (ns : List Text).
                clean (root ++ b'/' ∷ join_with b'/' (name ∷ l ∷ ls))
                ≡ render (rooted_path ((d ++ ns) ++ l ∷ ls)))
              (same_names n m j)
              (here
                ∙ ap (λ xs. render (rooted_path xs)) (sym (append_assoc d (name ∷ []) (l ∷ ls)))),
      )

action_at-paths :
    (env : EpelEnv) (repo : EpelRepo) (fast : Bool) (pkg : PackageInfo) (loc path : Text)
    (found : Option Text)
    → ((action_at env repo fast pkg loc path found).path ≡ loc)
      × ((action_at env repo fast pkg loc path found).local_path ≡ path)
unfolding action_at
action_at-paths env repo fast pkg loc path none = (refl, refl)
action_at-paths env repo fast pkg loc path (some content) = ground arith

-- Export looks for the file of a package, by its record, exactly where the sync put it if the clean
-- output directory of the repository is the name of the provider; where it is another, a directory
-- below it too, every package is looked for at another path.
pub exported_iff :
    (env : EpelEnv) (repo : EpelRepo) (disk : Map Text) (fast : Bool) (pkg : PackageInfo)
    (a : SyncAction) (out : Text) (sync : SyncEnv) (name : Text) (run_id : ℕ) (d : DownloadResult)
    → RootedCwd env.cwd
    → is_abs env.data_dir ≡ true
    → IsName name
    → safe_join_under env.cwd env.data_dir repo.output_dir ≡ ok out
    → build_action env repo out disk fast pkg ≡ ok a
    → ((entry_of env.data_dir name (file_record_of sync name run_id a d)).abs_path ≡ a.local_path)
      ↔ (clean_relative_path repo.output_dir ≡ ok name)
unfolding entry_of join_with
exported_iff env repo disk fast pkg a out sync name run_id d w r n o h =
    let b = build_action-Built env repo out disk fast pkg a h in
    let jo = safe_join_under-Joined env.cwd env.data_dir repo.output_dir w r o in
    let out_abs : is_abs out ≡ true = rw jo.text (is_abs-render _) in
    let jl = safe_join_under-Joined env.cwd out b.loc w out_abs b.joined in
    let (pl, pp) = action_at-paths env repo fast pkg b.loc b.path (lookup b.path disk) in
    let at_loc : b.loc ≡ join_with b'/' (jl.first ∷ jl.others) =
      ok-injective (sym (clean_relative_path_idem pkg.location b.clean) ∙ jl.cleaned) in
    let path_of : a.path ≡ join_with b'/' (jl.first ∷ jl.others) =
      ap (λ (x : SyncAction). x.path) b.action ∙ pl ∙ at_loc in
    let put : a.local_path
        ≡ render (
            rooted_path
              (((parse env.data_dir).elements ++ jo.first ∷ jo.others) ++ jl.first ∷ jl.others)) =
      ap (λ (x : SyncAction). x.local_path) b.action
      ∙ pp
      ∙ jl.text
      ∙ ap (λ (f : FilePath). render (rooted_path (f.elements ++ jl.first ∷ jl.others)))
          jo.parsed in
    let looked : join_three env.data_dir name a.path
        ≡ clean (env.data_dir ++ b'/' ∷ join_with b'/' (name ∷ jl.first ∷ jl.others)) =
      join_three-abs env.data_dir name a.path r
      ∙ ap (λ t. clean (env.data_dir ++ b'/' ∷ (name ++ b'/' ∷ t))) path_of in
    let (there, back) =
      below_iff env.data_dir name jo.first jl.first jo.others jl.others r (n, jl.names) jo.names in
    (
      λ x. jo.cleaned ∙ ap (λ t. ok t) (there (sym looked ∙ x ∙ put)),
      λ y. looked ∙ back (ok-injective (sym jo.cleaned ∙ y)) ∙ sym put,
    )
