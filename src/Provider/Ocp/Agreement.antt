-- ===== src/Provider/Ocp/Agreement.antt =====
-- What a plan and a validation of the OpenShift binaries find for a version.
use ocp_offline.Prelude.{
  Text, List, [], ◌∷◌, ok, map_err, >>=-eq-ok, ok-injective, ◌≡◌, sym, ◌+◌, subst, Map, lookup,
}
use ocp_offline.Safety.Path.{safe_join_under}
use ocp_offline.Provider.{SyncAction, ValidationReport}
use ocp_offline.Provider.Agreement.{Agrees, add_result-Judges, Agrees-nil}
use ocp_offline.Provider.Ocp.{
  OcpEnv, OcpConfig, version_url, file_path, file_actions, version_dirs, build_sync_plan,
  ocp_validate_at, count_result, validate_files, validate_version,
}
use ocp_offline.Provider.Ocp.Judged.{file_path-ok, recounted, ocp_file-Judges}

module _ (env : OcpEnv) (cfg : OcpConfig) (version : Text) (disk : Map Text) where
  files-Agrees :
      (out dir : Text) (files : Map Text) (as' : List SyncAction) (report r : ValidationReport)
      → file_actions env cfg.base_url version out dir disk files ≡ ok as'
      → validate_files env cfg version out dir disk files report ≡ ok r
      → Agrees as' report r
  unfolding file_actions validate_files
  files-Agrees out dir [] as' report r h k =
      rw (← ok-injective h, ← ok-injective k) (Agrees-nil report)
  files-Agrees out dir ((file, checksum) ∷ files) as' report r h k =
      let ((path, local_path), e, p) = >>=-eq-ok (file_path env out dir file) _ h in
      let (more, e', p') =
        >>=-eq-ok (file_actions env cfg.base_url version out dir disk files) _ p in
      let (joined, related) = file_path-ok env out dir file path local_path e in
      let url = version_url cfg.base_url version file in
      let judged = ocp_validate_at env path local_path checksum url (lookup local_path disk) in
      let rest : validate_files env cfg version out dir disk files (count_result judged report)
          ≡ ok r =
        rw (joined, related) at k in
      subst (λ bs. Agrees bs report r) (ok-injective p')
        (recounted _ _ report r (
          add_result-Judges judged _ more (record report { total_files = report.total_files + 1 }) r
            (ocp_file-Judges env path local_path checksum url (lookup local_path disk))
            (files-Agrees out dir files more (count_result judged report) r e' rest)))

  -- The plan of a version and its validation agree on the same disk, if both succeed: the validation
  -- finds valid as many files as the plan skips, and the invalid ones are those that the plan downloads
  -- or updates, in the same order.
  pub validate_version-Agrees :
      (out : Text) (files : Map Text) (as' : List SyncAction) (report r : ValidationReport)
      → safe_join_under env.cwd env.data_dir cfg.output_dir ≡ ok out
      → build_sync_plan env cfg.base_url version cfg.output_dir files disk ≡ ok as'
      → validate_version env cfg out disk version report (ok files) ≡ ok r
      → Agrees as' report r
  unfolding build_sync_plan version_dirs validate_version
  validate_version-Agrees out files as' report r o h k =
      let (dirs, e, p) = >>=-eq-ok (version_dirs env cfg.output_dir version) _ h in
      let (dir, d, q) = >>=-eq-ok (map_err _ (safe_join_under env.cwd out version)) _ (rw o at e) in
      let planned =
        subst
          (λ (x : Text × Text). file_actions env cfg.base_url version x.0 x.1 disk files ≡ ok as')
          (sym (ok-injective q)) p in
      files-Agrees out dir files as' report r planned (rw d at k)
