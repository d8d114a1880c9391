-- ===== src/Tests/Visits.antt =====
-- Visits and lookups of `hop`.
use mini_project.Common.{Bool, true, none, some, List, [], ◌∷◌, ◌++◌, ◌≡◌, refl, arith, All}
use mini_project.Shell.Token.{Bytes, op_word, Token}
use mini_project.Shell.Hop.{Entry, is_match, frecency_lookup, Dirs, HopState, hop}
use mini_project.Shell.Hop.Ranking.{BestMatch, IsIn, frecency_lookup-BestMatch}
use mini_project.Shell.Hop.History.{save_history, load_history, history_name, find_history}
use mini_project.Shell.Hop.History.RoundTrip.{IsPath, IsKept, load_history-save_history}
use mini_project.Shell.Main.Prompt.{print_prompt}

abbrev home : Bytes
home = b'/' ∷ b'h' ∷ []

abbrev lab : Bytes
lab = b'/' ∷ b'h' ∷ b'l' ∷ []

abbrev visited : List Entry
visited =
    record { path = home; frequency = 1; last_access = 900000 }
    ∷ record { path = lab; frequency = 1; last_access = 999000 }
    ∷ []

abbrev all_dirs : Bytes → Bool
all_dirs path = true

-- The visit of `lab` was within the last hour.
lab_found : frecency_lookup 1000000 all_dirs (b'h' ∷ []) visited ≡ some lab
unfolding frecency_lookup
lab_found = refl

frecency_lookup-BestMatch_example :
    BestMatch 1000000
      (is_match all_dirs (b'h' ∷ []))
      (IsIn visited)
      visited
      (frecency_lookup 1000000 all_dirs (b'h' ∷ []) visited)
frecency_lookup-BestMatch_example = frecency_lookup-BestMatch 1000000 all_dirs (b'h' ∷ []) visited

-- A place is its path, and every directory exists.
abbrev everywhere : Dirs Bytes
everywhere = record {
  getcwd = λ path. some path;
  chdir = λ path target. some target;
  is_dir = λ path target. true;
}

abbrev at_home : HopState Bytes
at_home = record { place = home; db = visited; oldpwd = none }

abbrev hop_back : List Token
hop_back =
    record { type = op_word; text = b'h' ∷ [] }
    ∷ record { type = op_word; text = lab }
    ∷ record { type = op_word; text = b'-' ∷ [] }
    ∷ []

two_hops : (hop everywhere home 7 hop_back at_home).1.place ≡ home
unfolding hop
two_hops = refl

saved :
    save_history visited
    ≡ b'1' ∷ b' ' ∷ b'9' ∷ b'0' ∷ b'0' ∷ b'0' ∷ b'0' ∷ b'0' ∷ b' ' ∷ b'/' ∷ b'h' ∷ b'\n' ∷ b'1'
      ∷ b' ' ∷ b'9' ∷ b'9' ∷ b'9' ∷ b'0' ∷ b'0' ∷ b'0' ∷ b' ' ∷ b'/' ∷ b'h' ∷ b'l' ∷ b'\n' ∷ []
unfolding save_history
saved = refl

visited-IsKept : All IsKept visited
unfolding IsKept IsPath
visited-IsKept = (
  (omega arith, omega arith, (b'h' ∷ [], refl, (refl, (refl, tt)), omega arith)),
  (
    (omega arith, omega arith, (b'h' ∷ b'l' ∷ [], refl, (refl, (refl, (refl, tt))), omega arith)),
    tt,
  ),
)

load_history-save_history_example : load_history (some (save_history visited)) [] ≡ visited
load_history-save_history_example =
    load_history-save_history visited [] visited-IsKept (omega arith)

-- The file lies beside the program.
beside : find_history (some (b'/' ∷ b'b' ∷ b'/' ∷ b's' ∷ [])) home ≡ b'/' ∷ b'b' ∷ history_name
unfolding find_history
beside = refl

-- The directory below home.
abbrev prompt : Bytes
prompt = b'<' ∷ b'u' ∷ b'@' ∷ b'm' ∷ b':' ∷ b'~' ∷ b'/' ∷ b'l' ∷ b'>' ∷ b' ' ∷ []

prompted : print_prompt (b'u' ∷ []) (b'm' ∷ []) home (some (home ++ b'/' ∷ b'l' ∷ [])) ≡ prompt
unfolding print_prompt
prompted = refl
