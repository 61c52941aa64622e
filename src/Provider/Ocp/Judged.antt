-- ===== src/Provider/Ocp/Judged.antt =====
-- One file, in the plan and in the validation of the providers of internal/provider/ocp.
use ocp_offline.Safety.Path.{safe_join_under, rel}
use ocp_offline.Provider.{SyncAction, ValidationReport}
use ocp_offline.Prelude.{
  ℕ, List, ok, ◌≡◌, ap, ◌∙◌, map_err, or_err, >>=-eq-ok, map_err-ok, or_err-ok, ok-injective, Text,
  text_eq, Option, none, some, refl, ◌==◌, Bool-cases, inl, inr,
}
use ocp_offline.Provider.Agreement.{Judges, Agrees}
use ocp_offline.Provider.Ocp.{OcpEnv, no_relative_path, file_path, ocp_action_at, ocp_validate_at}

-- A file that is valid is one to skip, and one that is invalid one to fetch, at the same path.
pub ocp_file-Judges :
    (env : OcpEnv) (path local_path checksum url : Text) (found : Option Text)
    → Judges
        (ocp_validate_at env path local_path checksum url found)
        (ocp_action_at env path local_path checksum url found)
unfolding ocp_validate_at ocp_action_at
ocp_file-Judges env path local_path checksum url none = (refl, refl, refl)
ocp_file-Judges env path local_path checksum url (some content) =
    elim (Bool-cases (env.can_stat local_path)) [
      | inr e ↦ rw e (refl, refl, refl)
      | inl e ↦ elim (Bool-cases (env.can_read local_path)) [
        | inr r ↦ rw (e, r) (refl, refl, refl)
        | inl r ↦ elim (Bool-cases (env.hash content == checksum)) [
          | inl h ↦ rw (e, r, h) (refl, refl)
          | inr h ↦ rw (e, r, h) (refl, refl, refl)
        ]
      ]
    ]

-- The two steps of a file's path.
pub file_path-ok :
    (env : OcpEnv) (out dir file : Text) (path local_path : Text)
    → file_path env out dir file ≡ ok (path, local_path)
    → (safe_join_under env.cwd dir file ≡ ok local_path) × (rel out local_path ≡ some path)
unfolding file_path
file_path-ok env out dir file path local_path h =
    let (l, e, k) = >>=-eq-ok (map_err _ (safe_join_under env.cwd dir file)) _ h in
    let (p, e', k') = >>=-eq-ok (or_err (rel out l) (no_relative_path file)) _ k in
    let same = ok-injective k' in
    (
      map_err-ok _ (safe_join_under env.cwd dir file) e ∙ ap (λ (x : Text × Text). ok x.1) same,
      rw (← ap (λ (x : Text × Text). x.1) same)
          (or_err-ok (rel out l) _ e' ∙ ap (λ (x : Text × Text). some x.0) same),
    )

-- The number of files in a report does not matter.
pub recounted :
    (as' : List SyncAction) (n : ℕ) (before after : ValidationReport)
    → Agrees as' (record before { total_files = n }) after
    → Agrees as' before after
recounted as' n before after h = record { valid = h.valid; invalid = h.invalid }
