-- ===== src/Shell/Hop/Visits.antt =====
-- How visits are recorded, c-shell/src/hop.c.
use mini_project.Common.{
  ℕ, zero, suc, ◌≤◌, Bool, true, Option, none, some, List, [], ◌∷◌, ◌++◌, ◌≡◌, refl, ap, arith, ltb,
  if◌then◌else◌, if_cases, if_elim, length, length-append, any, update_first,
}
use mini_project.Shell.Token.{Bytes, Token, TokenCategory, op_word}
use mini_project.Shell.Builtins.{same}
use mini_project.Shell.Hop.{
  Entry, score, has_path, new_entry, visit_again, find_lowest, replace, evict, update_frecency,
  Dirs, HopState, do_chdir, go_back, go_found, Line, frecency_lookup, hop_arg, hop_token, hop_args,
  hop, arrive, landed,
}

length-update_first :
    (test : Entry → Bool) (f : Entry → Entry) (es : List Entry)
    → length (update_first test f es) ≡ length es
unfolding update_first
length-update_first test f [] = refl
length-update_first test f (e ∷ es) =
    if_cases (λ (r : List Entry). length r ≡ suc (length es)) (test e) (f e ∷ es)
      (e ∷ update_first test f es) (λ h. refl) (λ h. ap suc (length-update_first test f es))

length-replace : (i : ℕ) (new : Entry) (es : List Entry) → length (replace i new es) ≡ length es
unfolding replace
length-replace i new [] = refl
length-replace zero new (e ∷ es) = refl
length-replace (suc i) new (e ∷ es) = ap suc (length-replace i new es)

length-evict : (now : ℕ) (new : Entry) (es : List Entry) → length (evict now new es) ≡ length es
unfolding evict
length-evict now new [] = refl
length-evict now new (e ∷ es) = length-replace (find_lowest now 1 0 (score now e) es) new (e ∷ es)

length-update_frecency :
    (now : ℕ) (abs_path : Bytes) (db : List Entry)
    → length db ≤ 256
    → length (update_frecency now abs_path db) ≤ 256
unfolding update_frecency
length-update_frecency now abs_path db h =
    let P : List Entry → Type 0 = λ r. length r ≤ 256 in
    if_cases P (any (has_path abs_path) db) (update_first (has_path abs_path) (visit_again now) db)
      (if ltb (length db) 256
        then db ++ new_entry now abs_path ∷ []
        else evict now (new_entry now abs_path) db)
      (λ e. omega (arith, h, length-update_first (has_path abs_path) (visit_again now) db))
      (λ e.
        if_cases P (ltb (length db) 256) (db ++ new_entry now abs_path ∷ [])
          (evict now (new_entry now abs_path) db) (λ f. room db (new_entry now abs_path) f)
          (λ f. omega (arith, h, length-evict now (new_entry now abs_path) db)))
  where
    room :
        (db : List Entry) (new : Entry) → ltb (length db) 256 ≡ true → length (db ++ new ∷ []) ≤ 256
    room db new f = ground (arith, length-append db (new ∷ []))

module _ {Place : Type 0} (dirs : Dirs Place) (shell_home : Bytes) where
  -- The database fits into its array.
  abbrev pub Fits : HopState Place → Type 0
  Fits s = length s.db ≤ 256

  landed-Fits :
      (now : ℕ) (cwd : Option Bytes) (db : List Entry)
      → length db ≤ 256
      → length (landed dirs shell_home now cwd db) ≤ 256
  landed-Fits now none db h = h
  landed-Fits now (some cwd) db h = length-update_frecency now cwd db h

  arrive-Fits :
      (now : ℕ) (place : Option Place) (s : HopState Place)
      → Fits s
      → Fits (arrive dirs shell_home now place s).1
  arrive-Fits now none s h = h
  arrive-Fits now (some place) s h = landed-Fits now (dirs.getcwd place) s.db h

  do_chdir-Fits :
      (now : ℕ) (target : Bytes) (s : HopState Place)
      → Fits s
      → Fits (do_chdir dirs shell_home now target s).1
  unfolding do_chdir
  do_chdir-Fits now target s h = arrive-Fits now (dirs.chdir s.place target) s h

  go_back-Fits :
      (now : ℕ) (old : Option Bytes) (s : HopState Place)
      → Fits s
      → Fits (go_back dirs shell_home now old s).1
  go_back-Fits now none s h = h
  go_back-Fits now (some old) s h = do_chdir-Fits now old s h

  go_found-Fits :
      (now : ℕ) (match : Option Bytes) (s : HopState Place)
      → Fits s
      → Fits (go_found dirs shell_home now match s).1
  go_found-Fits now none s h = h
  go_found-Fits now (some match) s h = do_chdir-Fits now match s h

  hop_arg-Fits :
      (now : ℕ) (arg : Bytes) (s : HopState Place)
      → Fits s
      → Fits (hop_arg dirs shell_home now arg s).1
  unfolding hop_arg
  hop_arg-Fits now arg s h =
      let P : List Line × HopState Place → Type 0 = λ r. Fits r.1 in
      if_elim P (same arg (b'~' ∷ [])) (do_chdir-Fits now shell_home s h) (
        if_elim P (same arg (b'.' ∷ [])) h (
          if_elim P (same arg (b'.' ∷ b'.' ∷ [])) (do_chdir-Fits now (b'.' ∷ b'.' ∷ []) s h) (
            if_elim P (same arg (b'-' ∷ [])) (go_back-Fits now s.oldpwd s h) (
              if_elim P (dirs.is_dir s.place arg) (do_chdir-Fits now arg s h)
                (go_found-Fits now (frecency_lookup now (dirs.is_dir s.place) arg s.db) s h)))))

  hop_token-Fits :
      (now : ℕ) (c : TokenCategory) (text : Bytes) (s : HopState Place)
      → Fits s
      → Fits (hop_token dirs shell_home now c text s).1
  hop_token-Fits now op_word text s h = hop_arg-Fits now text s h
  hop_token-Fits now _ text s h = h

  hop_args-Fits :
      (now : ℕ) (ts : List Token) (s : HopState Place)
      → Fits s
      → Fits (hop_args dirs shell_home now ts s).1
  unfolding hop_args
  hop_args-Fits now [] s h = h
  hop_args-Fits now (t ∷ ts) s h =
      hop_args-Fits now ts (hop_token dirs shell_home now t.type t.text s).1
        (hop_token-Fits now t.type t.text s h)

-- Whatever `hop` is given and wherever it goes, a database of at most 256 entries keeps at most
-- 256.
pub hop-Fits :
    {Place : Type 0} (dirs : Dirs Place) (shell_home : Bytes) (now : ℕ) (list : List Token)
    (s : HopState Place)
    → Fits dirs shell_home s
    → Fits dirs shell_home (hop dirs shell_home now list s).1
unfolding hop
hop-Fits dirs shell_home now [] s h = do_chdir-Fits dirs shell_home now shell_home s h
hop-Fits dirs shell_home now (name ∷ []) s h = do_chdir-Fits dirs shell_home now shell_home s h
hop-Fits dirs shell_home now (name ∷ t ∷ ts) s h = hop_args-Fits dirs shell_home now (t ∷ ts) s h
