-- ===== src/Safety/Examples.antt =====
-- Runs of internal/safety and the theorems about it at concrete paths.
use ocp_offline.Prelude.{
  ◌≤◌, false, pos, Text, codes, ◌↔◌, ◌++◌, [], ◌∷◌, arith, true, All, text_beq, none, some, ◌≡◌,
  refl, ok, err, has_prefix,
}
use ocp_offline.Safety.Path.{
  absolute, parent_traversal, escapes_root, safe_join_under, ensure_under_root, rel,
  clean_relative_path, is_parent, abs, is_abs, join, rel_elements, clean,
}
use ocp_offline.Safety.Http.{Stream, read_all_with_limit}
use ocp_offline.Safety.Http.Limit.{read_all_with_limit_iff}
use ocp_offline.Safety.Path.Resolve.{parse, render}
use ocp_offline.Safety.Path.Confined.{IsName}
use ocp_offline.Safety.Path.Containment.{Extends, rooted_path}
use ocp_offline.Safety.Path.Guarantees.{Below, safe_join_under_confined, ensure_under_root_iff}
use ocp_offline.Safety.Path.Complete.{safe_join_under_complete}
use ocp_offline.Safety.Path.Split.{split, join_with}

abbrev data_dir : Text
data_dir = codes "/var/lib/airgap"

runs :
    (safe_join_under none data_dir (codes "epel//9/./x.rpm")
      ≡ ok (codes "/var/lib/airgap/epel/9/x.rpm"))
    × (safe_join_under none data_dir (codes "a/../../etc")
        ≡ err (parent_traversal (codes "a/../../etc")))
    × (safe_join_under none data_dir (codes "/etc/passwd") ≡ err (absolute (codes "/etc/passwd")))
    × (ensure_under_root none data_dir (codes "/var/lib/airgapx/y")
        ≡ err (escapes_root (codes "/var/lib/airgapx/y")))
    × (rel data_dir (codes "/var/lib/other/y") ≡ some (codes "../other/y"))
unfolding safe_join_under ensure_under_root clean_relative_path is_parent abs is_abs join rel
    rel_elements clean parse render text_beq split has_prefix join_with
runs = (refl, refl, refl, refl, refl)

joined_path :
    safe_join_under none data_dir (codes "epel/9/x.rpm") ≡ ok (codes "/var/lib/airgap/epel/9/x.rpm")
unfolding safe_join_under ensure_under_root clean_relative_path is_parent abs is_abs join rel
    rel_elements clean parse render text_beq split has_prefix join_with
joined_path = refl

cleaned_path : clean_relative_path (codes "epel//9/./x.rpm") ≡ ok (codes "epel/9/x.rpm")
unfolding clean_relative_path is_parent is_abs clean parse render text_beq split has_prefix
    join_with
cleaned_path = refl

abs_root : abs none data_dir ≡ some data_dir
unfolding abs is_abs clean parse render text_beq split has_prefix join_with
abs_root = refl

abs_candidate : abs none (codes "/var/lib/airgapx") ≡ some (codes "/var/lib/airgapx")
unfolding abs is_abs clean parse render text_beq split has_prefix join_with
abs_candidate = refl

is_abs_root : is_abs data_dir ≡ true
unfolding is_abs has_prefix
is_abs_root = refl

safe_join_under_confined_example :
    (root_abs : Text) × (abs none data_dir ≡ some root_abs)
    × Below root_abs (codes "/var/lib/airgap/epel/9/x.rpm")
safe_join_under_confined_example =
    safe_join_under_confined none data_dir (codes "epel/9/x.rpm") tt joined_path

ensure_under_root_iff_example :
    (ensure_under_root none data_dir (codes "/var/lib/airgapx") ≡ ok (codes "/var/lib/airgapx"))
    ↔ Extends (parse data_dir).elements (parse (codes "/var/lib/airgapx")).elements
ensure_under_root_iff_example =
    ensure_under_root_iff none data_dir (codes "/var/lib/airgapx") data_dir
      (codes "/var/lib/airgapx") tt abs_root abs_candidate

names : All IsName (codes "ab" ∷ codes "c" ∷ [])
names = (
  record {
    nonempty = λ h. cc h;
    not_dot = λ h. cc h;
    not_dotdot = λ h. cc h;
    lacks = (omega arith, (omega arith, tt));
  },
  (
    record {
      nonempty = λ h. cc h;
      not_dot = λ h. cc h;
      not_dotdot = λ h. cc h;
      lacks = (omega arith, tt);
    },
    tt,
  ),
)

safe_join_under_complete_example :
    safe_join_under none data_dir (codes "ab/c")
    ≡ ok (render (rooted_path ((parse data_dir).elements ++ codes "ab" ∷ codes "c" ∷ [])))
unfolding join_with
safe_join_under_complete_example =
    safe_join_under_complete none data_dir (codes "ab") (codes "c" ∷ []) tt is_abs_root names

abbrev a_stream : Stream
a_stream = record { bytes = codes "abc"; fails = false }

read_all_with_limit_iff_example :
    (read_all_with_limit a_stream (pos 3) ≡ ok (codes "abc"))
    ↔ ((3 ≤ 3) × (false ≡ false) × (codes "abc" ≡ codes "abc"))
read_all_with_limit_iff_example =
    read_all_with_limit_iff a_stream 3 (omega arith) (omega arith) (codes "abc")
