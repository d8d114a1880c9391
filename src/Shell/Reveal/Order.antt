-- ===== src/Shell/Reveal/Order.antt =====
-- The order of the listing of c-shell/src/reveal.c without `-t`.
use mathlib.Core.List.{Perm}
use mini_project.Common.{
  ℕ, suc, Bool, true, false, Option, some, List, [], ◌∷◌, ◌≡◌, refl, ap, filter_by, All,
  All-filter_by, sort_by, sort_by-perm, sort_by-IsSortedBy, IsSortedBy, arith,
}
use mini_project.Shell.Token.{Bytes}
use mini_project.Shell.Reveal.{
  RevealFiles, name_le, is_shown, list_of, join_lines, list_names, reveal_list_dir, shown_names,
}

pub name_le-total : (s t : Bytes) → name_le s t ≡ false → name_le t s ≡ true
unfolding name_le
name_le-total [] t h = cc
name_le-total (c ∷ s) [] h = refl
name_le-total (c ∷ s) (d ∷ t) h = let more = name_le-total s t in ground arith

pub name_le_trans : (s t u : Bytes) → name_le s t ≡ true → name_le t u ≡ true → name_le s u ≡ true
unfolding name_le
name_le_trans [] t u h k = refl
name_le_trans (c ∷ s) [] u h k = cc
name_le_trans (c ∷ s) (d ∷ t) [] h k = cc
name_le_trans (c ∷ s) (d ∷ t) (e ∷ u) h k = let more = name_le_trans s t u in ground arith

list_names-flat :
    (list_dir : Bytes → Bytes → Option (List Bytes)) (fs : RevealFiles) (dir_path prefix : Bytes)
    (names : List Bytes)
    → list_names list_dir fs false dir_path prefix names ≡ some names
unfolding list_names
list_names-flat list_dir fs dir_path prefix [] = refl
list_names-flat list_dir fs dir_path prefix (name ∷ names) =
    ap (join_lines (some (name ∷ []))) (list_names-flat list_dir fs dir_path prefix names)

-- Without `-t` one unit of fuel is enough, and the lines are exactly the names in the directory
-- that are to be shown, each as often as it is read, in the order of their bytes.
pub reveal_list_dir-IsSortedBy :
    (fuel : ℕ) (fs : RevealFiles) (flag_a : Bool) (dir_path prefix : Bytes)
    → let shown = filter_by (is_shown flag_a) (list_of (fs.names dir_path)) in
      (lines : List Bytes) × (reveal_list_dir (suc fuel) fs flag_a false dir_path prefix
        ≡ some lines)
      × Perm lines shown
      × IsSortedBy name_le lines
      × All (λ name. is_shown flag_a name ≡ true) shown
unfolding reveal_list_dir shown_names
reveal_list_dir-IsSortedBy fuel fs flag_a dir_path prefix =
    let names = list_of (fs.names dir_path) in
    let shown = filter_by (is_shown flag_a) names in
    (
      sort_by name_le shown,
      list_names-flat (λ dir prefix'. reveal_list_dir fuel fs flag_a false dir prefix') fs dir_path
          prefix (sort_by name_le shown),
      sort_by-perm name_le shown,
      sort_by-IsSortedBy name_le name_le-total name_le_trans shown,
      All-filter_by (is_shown flag_a) names,
    )
