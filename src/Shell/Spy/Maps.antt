-- ===== src/Shell/Spy/Maps.antt =====
-- A mapped file is listed once by c-shell/src/spy.c.
use mini_project.Common.{
  Bool, true, false, not, ◌&&◌, Option, none, some, List, [], ◌∷◌, ◌++◌, ◌≡◌, refl, ap, All, any,
  Bool-cases, inl, inr, if◌then◌else◌, decide, length, ltb, ◌⊎◌, ◌≤◌, ◌<◌, ◌+◌, sym, ◌∙◌, subst,
  arith, length-append,
}
use mini_project.Shell.Token.{Bytes}
use mini_project.Shell.Builtins.{same, same-eq}
use mini_project.Shell.Spy.{from_slash, max_mem_files, stored_path, is_seen, is_new, mem_files}

-- No path that is listed is what was stored for one before it.
abbrev pub NoRepeat : List Bytes → Type 0
NoRepeat [] = Unit
NoRepeat (q ∷ ps) = All (λ p. same (stored_path q) p ≡ false) ps × NoRepeat ps

abbrev IsFresh : List Bytes → Bytes → Type 0
IsFresh seen p = is_seen seen p ≡ false

if_false : (b c : Bool) → (if b then true else c) ≡ false → (b ≡ false) × (c ≡ false)
if_false true c h = cc
if_false false c h = (refl, h)

is_seen-append :
    (seen : List Bytes) (q p : Bytes)
    → IsFresh (seen ++ q ∷ []) p
    → IsFresh seen p × (same q p ≡ false)
unfolding any
is_seen-append [] q p h = (refl, (if_false (same q p) false h).0)
is_seen-append (s ∷ seen) q p h =
    let (here, more) = if_false (same s p) (is_seen (seen ++ q ∷ []) p) h in
    let (old, new) = is_seen-append seen q p more in (rw (here, if◌then◌else◌) old, new)

All-IsFresh :
    (seen : List Bytes) (q : Bytes) (ps : List Bytes)
    → All (IsFresh (seen ++ q ∷ [])) ps
    → All (IsFresh seen) ps × All (λ p. same q p ≡ false) ps
All-IsFresh seen q [] h = (tt, tt)
All-IsFresh seen q (p ∷ ps) h =
    let (old, new) = is_seen-append seen q p h.0 in
    let (olds, news) = All-IsFresh seen q ps h.1 in ((old, olds), (new, news))

is_new-IsFresh : (seen : List Bytes) (p : Bytes) → is_new seen p ≡ true → IsFresh seen p
is_new-IsFresh seen p h = elim (Bool-cases (is_seen seen p)) [
  | inl e ↦
      let off : is_new seen p ≡ false = ap (λ b. not b && ltb (length seen) max_mem_files) e in cc
  | inr e ↦ e
]

abbrev Once : List Bytes → List Bytes → Type 0
Once seen ps = All (IsFresh seen) ps × NoRepeat ps

slash-Once :
    (seen lines : List Bytes) (o : Option Bytes)
    → ((seen' : List Bytes) → Once seen' (mem_files seen' lines))
    → Once seen (elim o [
      | none ↦ mem_files seen lines
      | some path ↦ elim (is_new seen path) [
        | true ↦ path ∷ mem_files (seen ++ stored_path path ∷ []) lines
        | false ↦ mem_files seen lines
      ]
    ])
slash-Once seen lines none later = later seen
slash-Once seen lines (some path) later =
    decide (Once seen) (is_new seen path) (path ∷ mem_files (seen ++ stored_path path ∷ []) lines)
      (mem_files seen lines)
      (λ e.
        let rest = later (seen ++ stored_path path ∷ []) in
        let (olds, news) = All-IsFresh seen (stored_path path) _ rest.0 in
        ((is_new-IsFresh seen path e, olds), (news, rest.1)))
      (λ e. later seen)

mem_files-Once : (seen lines : List Bytes) → Once seen (mem_files seen lines)
unfolding mem_files
mem_files-Once seen [] = (tt, tt)
mem_files-Once seen (line ∷ lines) =
    slash-Once seen lines (from_slash line) (λ seen'. mem_files-Once seen' lines)

-- A path is listed, or one is whose stored part it is.
pub data Holds (path : Bytes) : List Bytes → Type 0 where
  here : {p : Bytes} {ps : List Bytes} → (p ≡ path) ⊎ (stored_path p ≡ path) → Holds path (p ∷ ps)
  later : {p : Bytes} {ps : List Bytes} → Holds path ps → Holds path (p ∷ ps)

-- A path stands in one of the lines.
abbrev pub Comes : Bytes → List Bytes → Type 0
Comes p [] = ⊥
Comes p (line ∷ lines) = (from_slash line ≡ some p) ⊎ Comes p lines

-- A path has been seen before, or is listed, or the array has become full.
abbrev Covered : List Bytes → List Bytes → Bytes → Type 0
Covered seen ps path =
    (is_seen seen path ≡ true) ⊎ (Holds path ps ⊎ (max_mem_files ≤ length seen + length ps))

abbrev CoveredLine : List Bytes → List Bytes → Option Bytes → Type 0
CoveredLine seen ps none = Unit
CoveredLine seen ps (some path) = Covered seen ps path

is_seen-split :
    (seen : List Bytes) (q x : Bytes)
    → is_seen (seen ++ q ∷ []) x ≡ true
    → (is_seen seen x ≡ true) ⊎ (same q x ≡ true)
unfolding any
is_seen-split [] q x h = elim (Bool-cases (same q x)) [
  | inl e ↦ inr e
  | inr e ↦ let bad : false ≡ true = ap (λ b. if b then true else false) (sym e) ∙ h in cc
]
is_seen-split (s ∷ seen) q x h = elim (Bool-cases (same s x)) [
  | inl e ↦ inl (rw (e, if◌then◌else◌) refl)
  | inr e ↦
      let more : is_seen (seen ++ q ∷ []) x ≡ true =
        ap (λ b. if b then true else is_seen (seen ++ q ∷ []) x) (sym e) ∙ h in
      elim (is_seen-split seen q x more) [
        | inl old ↦ inl (rw (e, if◌then◌else◌) old)
        | inr new ↦ inr new
      ]
]

-- After a new path has been stored.
Covered-new :
    (seen : List Bytes) (path : Bytes) (ps : List Bytes) (o : Option Bytes)
    → CoveredLine (seen ++ stored_path path ∷ []) ps o
    → CoveredLine seen (path ∷ ps) o
Covered-new seen path ps none h = tt
Covered-new seen path ps (some x) (inl s) = elim (is_seen-split seen (stored_path path) x s) [
  | inl old ↦ inl old
  | inr new ↦ inr (inl (here (inr (same-eq (stored_path path) x new))))
]
Covered-new seen path ps (some x) (inr (inl h)) = inr (inl (later h))
Covered-new seen path ps (some x) (inr (inr h)) =
    inr (inr (omega (arith, h, length-append seen (stored_path path ∷ []))))

all-Covered-new :
    (seen : List Bytes) (path : Bytes) (ps lines : List Bytes)
    → All (λ line. CoveredLine (seen ++ stored_path path ∷ []) ps (from_slash line)) lines
    → All (λ line. CoveredLine seen (path ∷ ps) (from_slash line)) lines
all-Covered-new seen path ps [] h = tt
all-Covered-new seen path ps (line ∷ lines) h =
    (Covered-new seen path ps (from_slash line) h.0, all-Covered-new seen path ps lines h.1)

-- What is known of the paths that are listed for lines, when some were seen before.
record Listing (seen lines ps : List Bytes) : Type 0 where
  covered : All (λ line. CoveredLine seen ps (from_slash line)) lines
  within : length seen ≤ max_mem_files → length seen + length ps ≤ max_mem_files
  comes : All (λ p. Comes p lines) ps

one_more :
    (line : Bytes) (lines ps : List Bytes)
    → All (λ p. Comes p lines) ps
    → All (λ p. Comes p (line ∷ lines)) ps
one_more line lines [] h = tt
one_more line lines (p ∷ ps) h = (inr h.0, one_more line lines ps h.1)

not_new : (seen ps : List Bytes) (path : Bytes) → is_new seen path ≡ false → Covered seen ps path
not_new seen ps path h = elim (Bool-cases (is_seen seen path)) [
  | inl e ↦ inl e
  | inr e ↦
      let full : ltb (length seen) max_mem_files ≡ false =
        ap (λ b. not b && ltb (length seen) max_mem_files) (sym e) ∙ h in
      inr (inr (ground arith))
]

has_room :
    (seen : List Bytes) (path : Bytes) → is_new seen path ≡ true → length seen < max_mem_files
has_room seen path h = ground arith

slash-Listing :
    (seen : List Bytes) (line : Bytes) (lines : List Bytes) (o : Option Bytes)
    → from_slash line ≡ o
    → ((seen' : List Bytes) → Listing seen' lines (mem_files seen' lines))
    → Listing seen (line ∷ lines) (elim o [
      | none ↦ mem_files seen lines
      | some path ↦ elim (is_new seen path) [
        | true ↦ path ∷ mem_files (seen ++ stored_path path ∷ []) lines
        | false ↦ mem_files seen lines
      ]
    ])
slash-Listing seen line lines none e f =
    let rest = f seen in
    record {
      covered = (subst (CoveredLine seen (mem_files seen lines)) (sym e) tt, rest.covered);
      within = rest.within;
      comes = one_more line lines (mem_files seen lines) rest.comes;
    }
slash-Listing seen line lines (some path) e f =
    let seen' = seen ++ stored_path path ∷ [] in
    decide (Listing seen (line ∷ lines)) (is_new seen path) (path ∷ mem_files seen' lines)
      (mem_files seen lines)
      (λ new.
        let rest = f seen' in
        let more = length-append seen (stored_path path ∷ []) in
        let room = has_room seen path new in
        record {
          covered = (
            subst (CoveredLine seen (path ∷ mem_files seen' lines)) (sym e)
                (inr (inl (here (inl refl)))),
            all-Covered-new seen path (mem_files seen' lines) lines rest.covered,
          );
          within =
              λ h. let fits = rest.within (omega (arith, room, more)) in omega (arith, fits, more);
          comes = (inl e, one_more line lines (mem_files seen' lines) rest.comes);
        })
      (λ old.
        let rest = f seen in
        record {
          covered = (
            subst (CoveredLine seen (mem_files seen lines)) (sym e)
                (not_new seen (mem_files seen lines) path old),
            rest.covered,
          );
          within = rest.within;
          comes = one_more line lines (mem_files seen lines) rest.comes;
        })

mem_files-Listing : (seen lines : List Bytes) → Listing seen lines (mem_files seen lines)
unfolding mem_files
mem_files-Listing seen [] = record { covered = tt; within = λ h. omega (arith, h); comes = tt }
mem_files-Listing seen (line ∷ lines) =
    slash-Listing seen line lines (from_slash line) refl (λ seen'. mem_files-Listing seen' lines)

-- A path is listed, or one is whose stored part it is, or as many are listed as the array holds.
abbrev pub IsListed : List Bytes → Option Bytes → Type 0
IsListed ps none = Unit
IsListed ps (some path) = Holds path ps ⊎ (length ps ≡ max_mem_files)

-- The paths that are listed for the lines of `maps`.
pub record AreMapped (lines ps : List Bytes) : Type 0 where
  pub complete : All (λ line. IsListed ps (from_slash line)) lines
  pub comes : All (λ p. Comes p lines) ps
  pub no_repeat : NoRepeat ps
  pub bounded : length ps ≤ max_mem_files

-- The path in every line of `maps` is listed, itself or as the stored part of a longer one, unless
-- 512 paths are listed; never more are. Every path that is listed stands in a line, and none is
-- listed behind a path that is stored as it: a path of at most 511 bytes is listed once, however
-- often it stands in `maps`.
pub mem_files-AreMapped : (lines : List Bytes) → AreMapped lines (mem_files [] lines)
unfolding any
mem_files-AreMapped lines =
    let ps = mem_files [] lines in
    let l = mem_files-Listing [] lines in
    let bound : length ps ≤ max_mem_files = omega (arith, l.within (omega arith)) in
    record {
      complete = every ps bound lines l.covered;
      comes = l.comes;
      no_repeat = (mem_files-Once [] lines).1;
      bounded = bound;
    }
  where
    listed :
        (ps : List Bytes)
        → length ps ≤ max_mem_files
        → (o : Option Bytes) → CoveredLine [] ps o
        → IsListed ps o
    listed ps b none h = tt
    listed ps b (some x) (inl h) = cc
    listed ps b (some x) (inr (inl h)) = inl h
    listed ps b (some x) (inr (inr h)) = inr (omega (arith, h, b))

    every :
        (ps : List Bytes)
        → length ps ≤ max_mem_files
        → (lines : List Bytes) → All (λ line. CoveredLine [] ps (from_slash line)) lines
        → All (λ line. IsListed ps (from_slash line)) lines
    every ps b [] h = tt
    every ps b (line ∷ lines) h = (listed ps b (from_slash line) h.0, every ps b lines h.1)
