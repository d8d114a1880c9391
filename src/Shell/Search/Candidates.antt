-- ===== src/Shell/Search/Candidates.antt =====
-- Which file c-shell/src/execute.c runs, and that c-shell/src/locate.c prints it first.
use mini_project.Common.{
  Bool, true, false, not, ◌&&◌, Option, none, some, List, [], ◌∷◌, ◌++◌, ◌≡◌, refl, sym, ap, subst,
  ◌∙◌, inl, inr, ◌==◌, if◌then◌else◌, Bool-cases, All,
}
use mini_project.Shell.Token.{Bytes}
use mini_project.Shell.Search.{
  Files, is_executable, print, join, contains, path_dirs, dir_candidate, search_path, search_cwd,
  strip_mark, or_else, find_in_dirs, find_executable, locate_candidate, locate_dirs, locate_cwd,
  buffer, locate_single,
}

-- The first executable file of a list of candidates.
pub data FirstExecutable (fs : Files) : List Bytes → Option Bytes → Type 0 where
  nowhere : FirstExecutable fs [] none
  here :
      (path : Bytes) (paths : List Bytes)
      → is_executable fs path ≡ true
      → FirstExecutable fs (path ∷ paths) (some path)
  later :
      (path : Bytes) (paths : List Bytes) (r : Option Bytes)
      → is_executable fs path ≡ false
      → FirstExecutable fs paths r
      → FirstExecutable fs (path ∷ paths) r

abbrev in_dirs : Files → Bytes → List Bytes → List Bytes
in_dirs fs name [] = []
in_dirs fs name (dir ∷ dirs) = dir_candidate fs.getcwd dir name ∷ in_dirs fs name dirs

abbrev in_cwd : Option Bytes → Bytes → List Bytes
in_cwd none name = []
in_cwd (some cwd) name = print (join cwd name) ∷ []

-- What stands in the file system for a name: after a mark `%` only the directories of PATH; a name
-- with a slash itself; else the working directory and then the directories of PATH.
unfoldable pub candidates : Files → Bytes → List Bytes
unfolding path_dirs strip_mark contains
candidates fs raw_cmd =
    let (skip_cwd, name) = strip_mark raw_cmd in
    let dirs = in_dirs fs name (path_dirs fs.env_path) in
    if skip_cwd
    then dirs
    else if contains b'/' name
    then name ∷ []
    else in_cwd fs.getcwd name ++ dirs

module _ (fs : Files) where
  first_if :
      (path : Bytes) (paths : List Bytes) (r : Option Bytes)
      → FirstExecutable fs paths r
      → FirstExecutable fs (path ∷ paths) (if is_executable fs path then some path else r)
  first_if path paths r h = elim (Bool-cases (is_executable fs path)) [
    | inl e ↦
        subst (λ b. FirstExecutable fs (path ∷ paths) (if b then some path else r)) (sym e)
          (here path paths e)
    | inr e ↦
        subst (λ b. FirstExecutable fs (path ∷ paths) (if b then some path else r)) (sym e)
          (later path paths r e h)
  ]

  search_path-First :
      (name : Bytes) (dirs : List Bytes)
      → FirstExecutable fs (in_dirs fs name dirs) (search_path fs name dirs)
  unfolding search_path
  search_path-First name [] = nowhere
  search_path-First name (dir ∷ dirs) =
      first_if (dir_candidate fs.getcwd dir name) (in_dirs fs name dirs) (search_path fs name dirs)
        (search_path-First name dirs)

  search_cwd-First :
      (name : Bytes) (cwd : Option Bytes) (paths : List Bytes) (r : Option Bytes)
      → FirstExecutable fs paths r
      → FirstExecutable fs (in_cwd cwd name ++ paths) (or_else (search_cwd fs name cwd) r)
  unfolding search_cwd
  search_cwd-First name none paths r h = h
  search_cwd-First name (some cwd) paths r h = elim (Bool-cases (is_executable fs path)) [
    | inl e ↦
        subst (λ b. FirstExecutable fs (path ∷ paths) (or_else (if b then some path else none) r))
          (sym e) (here path paths e)
    | inr e ↦
        subst (λ b. FirstExecutable fs (path ∷ paths) (or_else (if b then some path else none) r))
          (sym e) (later path paths r e h)
  ]
    where
      path : Bytes
      path = print (join cwd name)

  by_name :
      (skip_cwd slash : Bool) (name : Bytes)
      → FirstExecutable fs
          (let dirs = in_dirs fs name (path_dirs fs.env_path) in
            if skip_cwd then dirs else if slash then name ∷ [] else in_cwd fs.getcwd name ++ dirs)
          (if not skip_cwd && slash
            then if is_executable fs name then some name else none
            else find_in_dirs fs skip_cwd name)
  unfolding find_in_dirs
  by_name true slash name = search_path-First name (path_dirs fs.env_path)
  by_name false true name = first_if name [] none nowhere
  by_name false false name =
      search_cwd-First name fs.getcwd (in_dirs fs name (path_dirs fs.env_path))
        (search_path fs name (path_dirs fs.env_path))
        (search_path-First name (path_dirs fs.env_path))

-- The file that is run for a name is the first executable one of its candidates, and no file is
-- found when no candidate is executable.
pub find_executable-First :
    (fs : Files) (raw_cmd : Bytes)
    → FirstExecutable fs (candidates fs raw_cmd) (find_executable fs raw_cmd)
unfolding candidates find_executable
find_executable-First fs raw_cmd =
    let (skip_cwd, name) = strip_mark raw_cmd in by_name fs skip_cwd (contains b'/' name) name

abbrev pub head? : List Bytes → Option Bytes
head? [] = none
head? (p ∷ ps) = some p

abbrev pub IsAbsolute : Bytes → Type 0
IsAbsolute [] = ⊥
IsAbsolute (c ∷ dir) = (c == b'/') ≡ true

head_if :
    (b : Bool) (p : Bytes) (ps : List Bytes)
    → head? (if b then p ∷ ps else ps) ≡ (if b then some p else head? ps)
head_if true p ps = refl
head_if false p ps = refl

head_else :
    (b : Bool) (p : Bytes) (ps : List Bytes) (r : Option Bytes)
    → head? ps ≡ r
    → head? ((if b then p ∷ [] else []) ++ ps) ≡ or_else (if b then some p else none) r
head_else true p ps r h = refl
head_else false p ps r h = h

module _ (fs : Files) where
  same_candidate :
      (cwd cmd dir : Bytes) (here : Option Bytes)
      → IsAbsolute dir
      → locate_candidate cwd dir cmd ≡ dir_candidate here dir cmd
  unfolding locate_candidate dir_candidate
  same_candidate cwd cmd [] h a = elim a [ ]
  same_candidate cwd cmd (c ∷ dir) none a =
      ap (λ b. if b then print (join (c ∷ dir) cmd) else print (join cwd (join (c ∷ dir) cmd))) a
  same_candidate cwd cmd (c ∷ dir) (some h) a =
      ap (λ b. if b then print (join (c ∷ dir) cmd) else print (join cwd (join (c ∷ dir) cmd))) a

  head?-locate_dirs :
      (cwd cmd : Bytes) (dirs : List Bytes)
      → All IsAbsolute dirs
      → head? (locate_dirs fs cwd cmd dirs) ≡ search_path fs cmd dirs
  unfolding locate_dirs search_path
  head?-locate_dirs cwd cmd [] a = refl
  head?-locate_dirs cwd cmd (dir ∷ dirs) a =
      head_if (is_executable fs (locate_candidate cwd dir cmd)) (locate_candidate cwd dir cmd)
        (locate_dirs fs cwd cmd dirs)
      ∙ ap
          (λ r.
            if is_executable fs (locate_candidate cwd dir cmd)
            then some (locate_candidate cwd dir cmd)
            else r)
          (head?-locate_dirs cwd cmd dirs a.1)
      ∙ ap (λ c. if is_executable fs c then some c else search_path fs cmd dirs)
          (same_candidate cwd cmd dir fs.getcwd a.0)

  head?-locate_single :
      (garbage cmd : Bytes) (here : Option Bytes)
      → All IsAbsolute (path_dirs fs.env_path)
      → head? (
          locate_cwd fs cmd here
          ++ locate_dirs fs (buffer garbage here) cmd (path_dirs fs.env_path))
        ≡ or_else (search_cwd fs cmd here) (search_path fs cmd (path_dirs fs.env_path))
  unfolding locate_cwd search_cwd
  head?-locate_single garbage cmd none a = head?-locate_dirs garbage cmd (path_dirs fs.env_path) a
  head?-locate_single garbage cmd (some cwd) a =
      head_else (is_executable fs (print (join cwd cmd))) (print (join cwd cmd))
        (locate_dirs fs cwd cmd (path_dirs fs.env_path))
        (search_path fs cmd (path_dirs fs.env_path))
        (head?-locate_dirs cwd cmd (path_dirs fs.env_path) a)

  find_plain :
      (cmd : Bytes) (p : Bool × Bytes)
      → p ≡ (false, cmd)
      → contains b'/' cmd ≡ false
      → find_in_dirs fs false cmd ≡ (
          if not p.0 && contains b'/' p.1
          then if is_executable fs p.1 then some p.1 else none
          else find_in_dirs fs p.0 p.1)
  find_plain cmd p m s =
      subst
        (λ (p : Bool × Bytes). find_in_dirs fs false cmd ≡ (
          if not p.0 && contains b'/' p.1
          then if is_executable fs p.1 then some p.1 else none
          else find_in_dirs fs p.0 p.1))
        (sym m)
        (ap
          (λ b.
            if b
            then if is_executable fs cmd then some cmd else none
            else find_in_dirs fs false cmd)
          (sym s))

-- For a name without `%` in front and without a slash, when every part of PATH is absolute, the
-- first path that `locate` prints is the file that the shell runs, and it prints none when the
-- shell finds none; this needs no working directory.
pub locate_single-find_executable :
    (fs : Files) (garbage cmd : Bytes)
    → strip_mark cmd ≡ (false, cmd)
    → contains b'/' cmd ≡ false
    → All IsAbsolute (path_dirs fs.env_path)
    → head? (locate_single fs garbage cmd) ≡ find_executable fs cmd
unfolding locate_single find_executable find_in_dirs
locate_single-find_executable fs garbage cmd m s a =
    head?-locate_single fs garbage cmd fs.getcwd a ∙ find_plain fs cmd (strip_mark cmd) m s
