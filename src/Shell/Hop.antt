-- ===== src/Shell/Hop.antt =====
-- The builtin hop, c-shell/src/hop.c: the database of visited directories, the lookup by part of
-- a name, and the change of directory. The clock is read once for each call, as `now`. The place
-- of the process in the file system and the calls on it are the parameter `Dirs`. A count of visits
-- and a score are kept without the bound of an `int`. Each visit ends with a write of the history file, which
-- is the file History.
pub mod Visits
pub mod Recorded
pub mod Ranking
pub mod History
use mini_project.Common.{
  ℕ, zero, suc, ◌+◌, ◌-◌, ◌*◌, Bool, true, false, not, ◌&&◌, Option, none, some, List, [], ◌∷◌,
  ◌++◌, ◌==◌, ltb, if◌then◌else◌, length, take, any, update_first,
}
use mini_project.Shell.Token.{Bytes, TokenCategory, op_word, Token}
use mini_project.Shell.Builtins.{same}

abbrev pub max_entries : ℕ
max_entries = 256

pub record Entry : Type 0 where
  pub path : Bytes
  pub frequency : ℕ
  pub last_access : ℕ

-- A time of access in the future counts as now.
unfoldable pub weight : ℕ → ℕ
weight t_d =
    if ltb t_d 3600 then 400 else if ltb t_d 86400 then 200 else if ltb t_d 604800 then 100 else 50

unfoldable pub score : ℕ → Entry → ℕ
unfolding weight
score now e = e.frequency * weight (now - e.last_access)

-- `strncpy` with PATH_MAX - 1.
abbrev pub new_entry : ℕ → Bytes → Entry
new_entry now abs_path = record { path = take 4095 abs_path; frequency = 1; last_access = now }

abbrev pub visit_again : ℕ → Entry → Entry
visit_again now e = record e { frequency = e.frequency + 1; last_access = now }

abbrev pub has_path : Bytes → Entry → Bool
has_path abs_path e = same e.path abs_path

-- The loop that looks for the lowest score from index `i` on; `min_idx` and `min_sc` are held.
unfoldable pub find_lowest : ℕ → ℕ → ℕ → ℕ → List Entry → ℕ
unfolding score
find_lowest now i min_idx min_sc [] = min_idx
find_lowest now i min_idx min_sc (e ∷ es) = elim (ltb (score now e) min_sc) [
  | true ↦ find_lowest now (i + 1) i (score now e) es
  | false ↦ find_lowest now (i + 1) min_idx min_sc es
]

unfoldable pub replace : ℕ → Entry → List Entry → List Entry
replace i new [] = []
replace zero new (e ∷ es) = new ∷ es
replace (suc i) new (e ∷ es) = e ∷ replace i new es

-- The database is full, and so not empty.
unfoldable pub evict : ℕ → Entry → List Entry → List Entry
unfolding find_lowest replace score
evict now new [] = []
evict now new (e ∷ es) = replace (find_lowest now 1 0 (score now e) es) new (e ∷ es)

unfoldable pub update_frecency : ℕ → Bytes → List Entry → List Entry
unfolding evict any update_first same
update_frecency now abs_path db =
    if any (has_path abs_path) db
    then update_first (has_path abs_path) (visit_again now) db
    else if ltb (length db) 256
    then db ++ new_entry now abs_path ∷ []
    else evict now (new_entry now abs_path) db

-- One round of the outer loop of the sort: the inner loop runs over the entries behind `x`, and
-- exchanges `x` for each with a higher score.
unfoldable pub exchange : ℕ → Entry → List Entry → Entry × List Entry
unfolding score
exchange now x [] = (x, [])
exchange now x (y ∷ ys) = elim (ltb (score now x) (score now y)) [
  | true ↦ (let (m, zs) = exchange now y ys in (m, x ∷ zs))
  | false ↦ (let (m, zs) = exchange now x ys in (m, y ∷ zs))
]

-- The outer loop, once for each entry.
unfoldable pub sort_rounds : ℕ → ℕ → List Entry → List Entry
unfolding exchange
sort_rounds now zero es = es
sort_rounds now (suc n) [] = []
sort_rounds now (suc n) (e ∷ es) = let (m, rest) = exchange now e es in m ∷ sort_rounds now n rest

unfoldable pub is_prefix : Bytes → Bytes → Bool
is_prefix [] s = true
is_prefix (c ∷ p) [] = false
is_prefix (c ∷ p) (d ∷ s) = c == d && is_prefix p s

-- Whether `strstr` finds `name`.
unfoldable pub strstr : Bytes → Bytes → Bool
unfolding is_prefix
strstr [] name = is_prefix name []
strstr (c ∷ s) name = if is_prefix name (c ∷ s) then true else strstr s name

unfoldable pub first_match : (Entry → Bool) → List Entry → Option Bytes
first_match test [] = none
first_match test (e ∷ es) = if test e then some e.path else first_match test es

abbrev pub is_match : (Bytes → Bool) → Bytes → Entry → Bool
is_match is_dir name e = if strstr e.path name then is_dir e.path else false

unfoldable pub frecency_lookup : ℕ → (Bytes → Bool) → Bytes → List Entry → Option Bytes
unfolding sort_rounds first_match strstr
frecency_lookup now is_dir name db =
    first_match (is_match is_dir name) (sort_rounds now (length db) db)

-- The file system as seen from a place in it.
pub record Dirs (Place : Type 0) : Type 0 where
  pub getcwd : Place → Option Bytes
  pub chdir : Place → Bytes → Option Place
  pub is_dir : Place → Bytes → Bool

pub record HopState (Place : Type 0) : Type 0 where
  pub place : Place
  pub db : List Entry
  pub oldpwd : Option Bytes

pub data Line : Type 0 where
  say_dir : Bytes → Line
  say_no_such_directory : Line

module _ {Place : Type 0} (dirs : Dirs Place) (shell_home : Bytes) where
  abbrev landed : ℕ → Option Bytes → List Entry → List Entry
  landed now none db = db
  landed now (some cwd) db = update_frecency now cwd db

  -- An empty or unknown previous directory is not kept.
  abbrev left : Option Bytes → Option Bytes → Option Bytes
  left none oldpwd = oldpwd
  left (some []) oldpwd = oldpwd
  left (some (c ∷ s)) oldpwd = some (c ∷ s)

  abbrev arrive : ℕ → Option Place → HopState Place → Bool × HopState Place
  arrive now none s = (false, s)
  arrive now (some place) s = (
    true,
    record {
      place = place;
      db = landed now (dirs.getcwd place) s.db;
      oldpwd = left (dirs.getcwd s.place) s.oldpwd;
    },
  )

  unfoldable pub do_chdir : ℕ → Bytes → HopState Place → Bool × HopState Place
  unfolding update_frecency
  do_chdir now target s = arrive now (dirs.chdir s.place target) s

  abbrev report : Bool → List Line
  report true = []
  report false = say_no_such_directory ∷ []

  abbrev go_to : ℕ → Bytes → HopState Place → List Line × HopState Place
  go_to now target s = let (ok, s') = do_chdir now target s in (report ok, s')

  abbrev go_back : ℕ → Option Bytes → HopState Place → List Line × HopState Place
  go_back now none s = ([], s)
  go_back now (some old) s = let (lines, s') = go_to now old s in (say_dir old ∷ lines, s')

  abbrev go_found : ℕ → Option Bytes → HopState Place → List Line × HopState Place
  go_found now none s = (say_no_such_directory ∷ [], s)
  go_found now (some match) s = go_to now match s

  unfoldable pub hop_arg : ℕ → Bytes → HopState Place → List Line × HopState Place
  unfolding do_chdir frecency_lookup same
  hop_arg now arg s =
      if same arg (b'~' ∷ [])
      then ([], (do_chdir now shell_home s).1)
      else if same arg (b'.' ∷ [])
      then ([], s)
      else if same arg (b'.' ∷ b'.' ∷ [])
      then ([], (do_chdir now (b'.' ∷ b'.' ∷ []) s).1)
      else if same arg (b'-' ∷ [])
      then go_back now s.oldpwd s
      else if dirs.is_dir s.place arg
      then go_to now arg s
      else go_found now (frecency_lookup now (dirs.is_dir s.place) arg s.db) s

  abbrev hop_token : ℕ → TokenCategory → Bytes → HopState Place → List Line × HopState Place
  hop_token now op_word text s = hop_arg now text s
  hop_token now _ text s = ([], s)

  unfoldable pub hop_args : ℕ → List Token → HopState Place → List Line × HopState Place
  unfolding hop_arg
  hop_args now [] s = ([], s)
  hop_args now (t ∷ ts) s =
      let (lines, s') = hop_token now t.type t.text s in
      let (more, s'') = hop_args now ts s' in (lines ++ more, s'')

  unfoldable pub hop : ℕ → List Token → HopState Place → List Line × HopState Place
  unfolding hop_args do_chdir
  hop now [] s = ([], (do_chdir now shell_home s).1)
  hop now (name ∷ []) s = ([], (do_chdir now shell_home s).1)
  hop now (name ∷ t ∷ ts) s = hop_args now (t ∷ ts) s
