-- ===== src/Engine/Export/Paths.antt =====
-- The path under which an export of internal/engine/export.go looks for a file.
use ocp_offline.Prelude.{◌≡◌, refl, Text, true, [], ◌∷◌, ◌++◌, has_prefix}
use ocp_offline.Safety.Path.{clean, is_abs}
use ocp_offline.Engine.Export.{join_three}

pub join_three-abs :
    (a b c : Text) → is_abs a ≡ true → join_three a b c ≡ clean (a ++ b'/' ∷ (b ++ b'/' ∷ c))
unfolding join_three is_abs has_prefix
join_three-abs [] b c h = absurd (cc h)
join_three-abs (x ∷ a) b c h = refl
