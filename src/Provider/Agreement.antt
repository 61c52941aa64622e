-- ===== src/Provider/Agreement.antt =====
-- What a plan and a validation say of the same files.
use mathlib.Core.List.{map-append}
use ocp_offline.Prelude.{
  ◌+◌, ◌≡◌, ap, sym, ◌∙◌, Text, Bool, append-nil, keep-append, true, false, List, [], ◌∷◌, ◌++◌,
  append_assoc, Option, none, some, map, keep, arith,
}
use ocp_offline.Provider.{ActionType, SyncAction, ValidationResult, ValidationReport}
use ocp_offline.Engine.Sync.Actions.{is_fetch, is_skip, count_actions}
use ocp_offline.Provider.Epel.Validation.{add_result}

-- A file that is valid is one to skip, and one that is invalid one to fetch, at the same path.
abbrev pub Judges : Option ValidationResult → SyncAction → Type 0
Judges none a = (is_skip a.action ≡ true) × (is_fetch a.action ≡ false)
Judges (some r) a = (is_skip a.action ≡ false) × (is_fetch a.action ≡ true) × (r.path ≡ a.path)

abbrev pub is_fetch_action : SyncAction → Bool
is_fetch_action a = is_fetch a.action

abbrev pub fetch_paths : List SyncAction → List Text
fetch_paths as' = map (λ (a : SyncAction). a.path) (keep is_fetch_action as')

abbrev pub invalid_paths : ValidationReport → List Text
invalid_paths report = map (λ (r : ValidationResult). r.path) report.invalid_files

-- What a validation adds to its report, against the actions of a plan: as many valid files as there
-- are skips, and the invalid ones at the paths of the downloads and updates, in their order.
pub record Agrees (as' : List SyncAction) (before after : ValidationReport) : Type 0 where
  pub valid : after.valid_files ≡ before.valid_files + count_actions is_skip as'
  pub invalid : invalid_paths after ≡ invalid_paths before ++ fetch_paths as'

-- The judged file is counted.
pub add_result-Judges :
    (v : Option ValidationResult) (a : SyncAction) (as' : List SyncAction)
    (report r : ValidationReport)
    → Judges v a
    → Agrees as' (add_result v report) r
    → Agrees (a ∷ as') report r
unfolding count_actions
add_result-Judges none a as' report r (s, f) h = record {
  valid = rw s (omega (arith, h.valid));
  invalid = rw f h.invalid;
}
add_result-Judges (some v) a as' report r (s, f, e) h = record {
  valid = rw s (omega (arith, h.valid));
  invalid =
      rw (f, ← e)
        (h.invalid
          ∙ ap (λ ps. ps ++ fetch_paths as')
              (map-append (λ (r : ValidationResult). r.path) report.invalid_files (v ∷ []))
          ∙ append_assoc _ (v.path ∷ []) (fetch_paths as'));
}

pub Agrees-nil : (report : ValidationReport) → Agrees [] report report
unfolding count_actions
Agrees-nil report = record { valid = omega arith; invalid = sym (append-nil _) }

count_actions-append :
    (p : ActionType → Bool) (as' bs : List SyncAction)
    → count_actions p (as' ++ bs) ≡ count_actions p as' + count_actions p bs
unfolding count_actions
count_actions-append p [] bs = omega arith
count_actions-append p (a ∷ as') bs = omega (arith, count_actions-append p as' bs)

-- One part of a plan after another.
pub Agrees-append :
    (as' bs : List SyncAction) (before between after : ValidationReport)
    → Agrees as' before between
    → Agrees bs between after
    → Agrees (as' ++ bs) before after
Agrees-append as' bs before between after h k = record {
  valid = omega (arith, h.valid, k.valid, count_actions-append is_skip as' bs);
  invalid =
      k.invalid
      ∙ ap (λ ps. ps ++ fetch_paths bs) h.invalid
      ∙ append_assoc (invalid_paths before) (fetch_paths as') (fetch_paths bs)
      ∙ ap (λ ps. invalid_paths before ++ ps)
          (sym (
            ap (map (λ (a : SyncAction). a.path)) (keep-append is_fetch_action as' bs)
            ∙ map-append (λ (a : SyncAction). a.path) (keep is_fetch_action as')
                (keep is_fetch_action bs)));
}
