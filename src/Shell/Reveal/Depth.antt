-- ===== src/Shell/Reveal/Depth.antt =====
-- The listing of c-shell/src/reveal.c with `-t`: it comes to an end in a tree of bounded height,
-- and its lines are those of the tree.
use mathlib.Core.List.{Perm}
use mini_project.Common.{
  ℕ, zero, suc, Bool, true, false, some, List, [], ◌∷◌, ◌++◌, ◌≡◌, ◌≢◌, refl, sym, ap, ◌∙◌, All,
  if_elim, if◌then◌else◌, Bool-cases, inl, inr, filter_by, sort_by, insert_by, sort_by-perm,
  sort_by-IsSortedBy, IsSortedBy,
}
use mini_project.Shell.Token.{Bytes}
use mini_project.Shell.Builtins.{same}
use mini_project.Shell.Reveal.{
  RevealFiles, full_path, print_path, name_le, is_shown, list_of, shown_names, list_names,
  reveal_list_dir,
}
use mini_project.Shell.Reveal.Order.{name_le-total, name_le_trans}

abbrev pub dot : Bytes
dot = b'.' ∷ []

abbrev pub dots : Bytes
dots = b'.' ∷ b'.' ∷ []

-- Below a directory stand at most `n` levels of directories, itself included, whatever is in it
-- besides itself and its parent.
abbrev pub HasHeight : RevealFiles → ℕ → Bytes → Type 0
HasHeight fs zero dir_path = ⊥
HasHeight fs (suc n) dir_path =
    All
      (λ name.
        name ≢ dot
        → name ≢ dots
        → fs.is_dir (full_path dir_path name) ≡ true
        → HasHeight fs n (full_path dir_path name))
      (list_of (fs.names dir_path))

-- The names of a directory that are to be shown, in the order of their bytes.
pub record IsContent (fs : RevealFiles) (flag_a : Bool) (dir_path : Bytes) (names : List Bytes)
    : Type 0 where
  pub shown : Perm names (filter_by (is_shown flag_a) (list_of (fs.names dir_path)))
  pub sorted : IsSortedBy name_le names

-- The lines for names in a directory: a file stands alone behind the prefix, and the lines of a
-- directory, with its own name before each, stand behind its name.
pub data Lines (fs : RevealFiles) (flag_a : Bool)
    : Bytes → Bytes → List Bytes → List Bytes → Type 0 where
  no_names : (dir_path prefix : Bytes) → Lines fs flag_a dir_path prefix [] []
  plain_file :
      {dir_path prefix name : Bytes} {names lines : List Bytes}
      → fs.is_dir (full_path dir_path name) ≡ false
      → Lines fs flag_a dir_path prefix names lines
      → Lines fs flag_a dir_path prefix (name ∷ names) ((prefix ++ name) ∷ lines)
  directory :
      {dir_path prefix name : Bytes} {names lines below inner : List Bytes}
      → fs.is_dir (full_path dir_path name) ≡ true
      → IsContent fs flag_a (full_path dir_path name) below
      → Lines fs flag_a
          (full_path dir_path name)
          (print_path (prefix ++ (name ++ b'/' ∷ [])))
          below
          inner
      → Lines fs flag_a dir_path prefix names lines
      → Lines fs flag_a dir_path prefix
          (name ∷ names)
          ((prefix ++ (name ++ b'/' ∷ [])) ∷ (inner ++ lines))

is_shown-not_self :
    (flag_a : Bool) (name : Bytes) → is_shown flag_a name ≡ true → (name ≢ dot) × (name ≢ dots)
unfolding is_shown same
is_shown-not_self flag_a name h = ((λ e. self dot refl e h), (λ e. self dots refl e h))
  where
    self :
        (own : Bytes) → is_shown flag_a own ≡ false → name ≡ own → is_shown flag_a name ≡ true → ⊥
    self own f e h = let g : is_shown flag_a own ≡ true = ap (is_shown flag_a) (sym e) ∙ h in cc

-- What holds of all elements holds of those that are sorted or that pass.
module _ (P : Bytes → Type 0) where
  insert_by-All :
      (name : Bytes) (names : List Bytes)
      → P name
      → All P names
      → All P (insert_by name_le name names)
  unfolding insert_by
  insert_by-All name [] h k = (h, tt)
  insert_by-All name (m ∷ names) h k =
      if_elim (All P) (name_le name m) (h, k) (k.0, insert_by-All name names h k.1)

  sort_by-All : (names : List Bytes) → All P names → All P (sort_by name_le names)
  unfolding sort_by
  sort_by-All [] h = tt
  sort_by-All (name ∷ names) h =
      insert_by-All name (sort_by name_le names) h.0 (sort_by-All names h.1)

module _ (fs : RevealFiles) (flag_a : Bool) where
  -- The listing of a directory with this fuel has the lines of the directory.
  abbrev Lists : ℕ → Bytes → Type 0
  Lists n dir =
      (prefix : Bytes)
      → (lines : List Bytes) × (reveal_list_dir n fs flag_a true dir prefix ≡ some lines)
        × Lines fs flag_a dir prefix (shown_names fs flag_a dir) lines

  shown-IsContent : (dir : Bytes) → IsContent fs flag_a dir (shown_names fs flag_a dir)
  unfolding shown_names
  shown-IsContent dir =
      let names = filter_by (is_shown flag_a) (list_of (fs.names dir)) in
      record {
        shown = sort_by-perm name_le names;
        sorted = sort_by-IsSortedBy name_le name_le-total name_le_trans names;
      }

  -- The directories among the names can be listed.
  abbrev Below : ℕ → Bytes → Bytes → Type 0
  Below n dir name = fs.is_dir (full_path dir name) ≡ true → Lists n (full_path dir name)

  list_names-Lines :
      (n : ℕ) (dir prefix : Bytes) (names : List Bytes)
      → All (Below n dir) names
      → (lines : List Bytes) × (list_names
            (λ d prefix'. reveal_list_dir n fs flag_a true d prefix')
            fs
            true
            dir
            prefix
            names
          ≡ some lines)
        × Lines fs flag_a dir prefix names lines
  unfolding list_names
  list_names-Lines n dir prefix [] h = ([], refl, no_names dir prefix)
  list_names-Lines n dir prefix (name ∷ names) h =
      let (lines, e, k) = list_names-Lines n dir prefix names h.1 in
      elim (Bool-cases (fs.is_dir (full_path dir name))) [
        | inl d ↦
            let (inner, f, l) = h.0 d (print_path (prefix ++ (name ++ b'/' ∷ []))) in
            (
              (prefix ++ (name ++ b'/' ∷ [])) ∷ (inner ++ lines),
              rw (d, if◌then◌else◌, f, e) refl,
              directory d (shown-IsContent (full_path dir name)) l k,
            )
        | inr d ↦ ((prefix ++ name) ∷ lines, rw (d, if◌then◌else◌, e) refl, plain_file d k)
      ]

  tall-Below :
      (n : ℕ) (dir : Bytes)
      → ((d : Bytes) → HasHeight fs n d → Lists n d)
      → (names : List Bytes)
      → All
          (λ name.
            name ≢ dot
            → name ≢ dots
            → fs.is_dir (full_path dir name) ≡ true
            → HasHeight fs n (full_path dir name))
          names
      → All (Below n dir) (filter_by (is_shown flag_a) names)
  unfolding filter_by
  tall-Below n dir f [] h = tt
  tall-Below n dir f (name ∷ names) h = elim (Bool-cases (is_shown flag_a name)) [
    | inl e ↦
        let (own, parent) = is_shown-not_self flag_a name e in
        rw (e, if◌then◌else◌)
          ((λ d. f (full_path dir name) (h.0 own parent d)), tall-Below n dir f names h.1)
    | inr e ↦ rw (e, if◌then◌else◌) (tall-Below n dir f names h.1)
  ]

  HasHeight-Lists : (n : ℕ) (dir : Bytes) → HasHeight fs n dir → Lists n dir
  unfolding reveal_list_dir shown_names
  HasHeight-Lists zero dir h = elim h [ ]
  HasHeight-Lists (suc n) dir h = λ prefix.
      list_names-Lines n dir prefix (shown_names fs flag_a dir) (
        sort_by-All (Below n dir) (filter_by (is_shown flag_a) (list_of (fs.names dir)))
          (tall-Below n dir (HasHeight-Lists n) (list_of (fs.names dir)) h))

  -- With `-t` and the height of the tree of directories as fuel the listing ends, and its lines are
  -- those of the names to be shown, in the order of their bytes, where the lines of every directory
  -- stand behind its name. Neither the directory itself nor its parent counts for the height.
  pub reveal_list_dir-Lines :
      (n : ℕ) (dir prefix : Bytes)
      → HasHeight fs n dir
      → (names lines : List Bytes) × (reveal_list_dir n fs flag_a true dir prefix ≡ some lines)
        × IsContent fs flag_a dir names
        × Lines fs flag_a dir prefix names lines
  reveal_list_dir-Lines n dir prefix h =
      let (lines, e, l) = HasHeight-Lists n dir h prefix in
      (shown_names fs flag_a dir, lines, e, shown-IsContent dir, l)
