-- ===== src/Ocp/Tracks/Entries.antt =====
-- Which entries of the archive name a channel.
use mathlib.Core.List.{reverse-append, reverse-reverse}
use ocp_offline.Prelude.{
  ℕ, Text, codes, text_eq, text_beq, nat_eq, is_empty, All-append, true, false, [], ◌∷◌, ◌++◌,
  append_assoc, reverse, none, some, ◌≡◌, ◌≢◌, ◌⊎◌, inl, inr, refl, sym, ap, ◌∙◌, arith,
}
use ocp_offline.Safety.Path.Split.{Lacks}
use ocp_offline.Provider.Epel.Metadata.{trim_left, trim_right}
use ocp_offline.Ocp.Tracks.{cut_last, split_path, base, without_ext, entry_channel}

cut_last-Lacks : (sep : ℕ) (s : Text) → Lacks sep s → cut_last sep s ≡ none
unfolding cut_last
cut_last-Lacks sep [] h = refl
cut_last-Lacks sep (c ∷ s) h = rw (cut_last-Lacks sep s h.1) (ground (arith, h.0))

-- The last separator is the one with none behind it.
cut_last-append : (sep : ℕ) (a b : Text) → Lacks sep b → cut_last sep (a ++ sep ∷ b) ≡ some (a, b)
unfolding cut_last
cut_last-append sep [] b h = rw (cut_last-Lacks sep b h) (ground arith)
cut_last-append sep (c ∷ a) b h = rw (cut_last-append sep a b h) refl

-- A directory in front of another name: none, or one with its slash.
abbrev pub IsDirectory : Text → Type 0
IsDirectory p = (p ≡ []) ⊎ ((q : Text) × (p ≡ q ++ b'/' ∷ []))

trim_right-slash : (p : Text) → trim_right (p ++ codes "channels/") ≡ p ++ codes "channels"
trim_right-slash p =
    ap (λ s. reverse (trim_left s)) (reverse-append p (codes "channels/"))
    ∙ reverse-append (codes "slennahc") (reverse p)
    ∙ ap (λ q. q ++ codes "channels") (reverse-reverse p)

is_empty-append : (q : Text) (c : ℕ) (s : Text) → is_empty (q ++ c ∷ s) ≡ false
is_empty-append [] c s = refl
is_empty-append (d ∷ q) c s = refl

base-channels : (p : Text) → IsDirectory p → base (p ++ codes "channels/") ≡ codes "channels"
unfolding base cut_last
base-channels p (inl e) = rw e refl
base-channels p (inr (q, e)) =
    let whole : p ++ codes "channels" ≡ q ++ 47 ∷ codes "channels" =
      rw e (append_assoc q (47 ∷ []) (codes "channels")) in
    let cut' = cut_last-append 47 q (codes "channels") (omega arith) in
    rw (trim_right-slash p, whole, cut', is_empty-append p 99 (codes "hannels/")) refl

-- A regular file in a directory named channels, at the top or below another directory, names the
-- channel that is its name up to the last dot, where it has one.
pub entry_channel-named :
    (p name ext : Text)
    → IsDirectory p
    → Lacks b'/' name
    → Lacks b'/' ext
    → Lacks b'.' ext
    → entry_channel
        (record { regular = true; name = p ++ (codes "channels/" ++ (name ++ b'.' ∷ ext)) })
      ≡ some name
unfolding entry_channel split_path without_ext text_beq
entry_channel-named p name ext top no_slash no_slash' no_dot =
    let file = name ++ 46 ∷ ext in
    let plain : Lacks 47 file = All-append (λ c. c ≢ 47) name (46 ∷ ext) no_slash (ground arith) in
    let whole : p ++ (codes "channels/" ++ file) ≡ (p ++ codes "channels") ++ 47 ∷ file =
      sym (append_assoc p (codes "channels") (47 ∷ file)) in
    let dir : (p ++ codes "channels") ++ 47 ∷ [] ≡ p ++ codes "channels/" =
      append_assoc p (codes "channels") (47 ∷ []) in
    rw (whole, cut_last-append 47 (p ++ codes "channels") file plain, dir, base-channels p top)
      (rw (is_empty-append name 46 ext, cut_last-append 46 name ext no_dot) refl)
