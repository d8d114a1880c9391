-- ===== src/Shell/Commands/Stages.antt =====
-- The stages of a command, `execute_pipeline_fg` of c-shell/src/execute.c, when the command comes
-- from an accepted line.
use mini_project.Common.{
  ℕ, suc, ◌+◌, ◌≤◌, ◌<◌, true, false, ◌||◌, none, some, List, [], ◌∷◌, ◌++◌, ◌≡◌, refl, sym, ap,
  subst, ◌∙◌, ◌⊎◌, inl, inr, arith, ltb, if◌then◌else◌, if_cases, Bool, Bool-cases, length,
  length-append, All, All-append,
}
use mini_project.Shell.Token.{TokenCategory, op_pipe, Token}
use mini_project.Shell.Parser.{categories, cmd, parse_tokens}
use mini_project.Shell.Commands.{
  separator, Command, commands, is_pipe, count_pipes, num_stages, store_stage, last_stage, collect,
  has_empty, pipeline_stages,
}
use mini_project.Shell.Commands.States.{
  ParserState, need, next, accepts, Leads, Leads-nil, Leads-snoc, Leads-accepts, accepts_head,
  inside_elim, next-pipe,
}
use mini_project.Shell.Commands.Accepted.{IsInside, IsCommand, commands-IsCommand}
use mini_project.Shell.Commands.Runnable.{Runs, IsCommand-Runs}

is_pipe-true : (c : TokenCategory) → is_pipe c ≡ true → c ≡ op_pipe
is_pipe-true op_pipe h = refl
is_pipe-true c h = cc

count_pipes-pipe :
    (t : Token) (ts : List Token)
    → IsInside t
    → is_pipe t.type ≡ true
    → count_pipes (t ∷ ts) ≡ suc (count_pipes ts)
unfolding count_pipes
count_pipes-pipe t ts i p =
    inside_elim (λ n. n ≡ suc (count_pipes ts)) (separator t.type) _ _ _ i
      (ap (λ b. if b then suc (count_pipes ts) else count_pipes ts) p)

count_pipes-word :
    (t : Token) (ts : List Token)
    → IsInside t
    → is_pipe t.type ≡ false
    → count_pipes (t ∷ ts) ≡ count_pipes ts
unfolding count_pipes
count_pipes-word t ts i p =
    inside_elim (λ n. n ≡ count_pipes ts) (separator t.type) _ _ _ i
      (ap (λ b. if b then suc (count_pipes ts) else count_pipes ts) p)

count_pipes-nil : count_pipes [] ≡ 0
unfolding count_pipes
count_pipes-nil = refl

store_stage-append :
    (stages : List (List Token)) (s : List Token)
    → length stages < 256
    → store_stage stages s ≡ stages ++ s ∷ []
unfolding store_stage
store_stage-append stages s h = ground arith

last_stage-append :
    (stages : List (List Token)) (s : List Token)
    → IsCommand s
    → length stages < 256
    → last_stage stages s ≡ stages ++ s ∷ []
unfolding last_stage accepts cmd
last_stage-append stages [] h k = cc
last_stage-append stages (t ∷ ts) h k =
    inside_elim (λ r. r ≡ stages ++ (t ∷ ts) ∷ []) (separator t.type) _ _ _ h.inside.0
      (store_stage-append stages (t ∷ ts) k)

-- A command for every stage that was there, and for every one that was still to come.
record Collected (n : ℕ) (r : List (List Token)) : Type 0 where
  commands : All IsCommand r
  count : length r ≡ n

add_stage :
    (stages : List (List Token)) (s : List Token)
    → All IsCommand stages
    → IsCommand s
    → Collected (length stages + 1) (stages ++ s ∷ [])
add_stage stages s h k = record {
  commands = All-append IsCommand stages (s ∷ []) h (k, tt);
  count = length-append stages (s ∷ []);
}

module _ (n : ℕ) where
  collect-Collected :
      (stages : List (List Token)) (start ts : List Token) (s : ParserState)
      → All IsCommand stages
      → Leads start s
      → All IsInside start
      → accepts s (categories ts) ≡ true
      → All IsInside ts
      → length stages + 1 + count_pipes ts ≡ n
      → n ≤ 256
      → Collected n (collect stages start ts)
  unfolding collect
  collect-Collected stages start [] s hs leads ins h i m b =
      let c : IsCommand start = record { accepted = Leads-accepts start s leads h; inside = ins } in
      let e : length stages + 1 ≡ n = omega (arith, m, count_pipes-nil) in
      subst (λ k. Collected k (last_stage stages start)) e
        (subst (Collected (length stages + 1))
          (sym (last_stage-append stages start c (omega (arith, e, b))))
          (add_stage stages start hs c))
  collect-Collected stages start (t ∷ ts) s hs leads ins h i m b =
      let (s', e, k) = accepts_head s t ts h in
      let pipe = collect (store_stage stages start) [] ts in
      let word = collect stages (start ++ t ∷ []) ts in
      inside_elim (Collected n) (separator t.type) _ _ _ i.0 (elim (Bool-cases (is_pipe t.type)) [
        | inl p ↦
            let (a, d) = next-pipe s s' (ap (next s) (sym (is_pipe-true t.type p)) ∙ e) in
            let c : IsCommand start = record {
              accepted = Leads-accepts start s leads a;
              inside = ins;
            } in
            let f = count_pipes-pipe t ts i.0 p in
            let g = store_stage-append stages start (omega (arith, m, b, f)) in
            let r : Collected n (collect (stages ++ start ∷ []) [] ts) =
              collect-Collected (stages ++ start ∷ []) [] ts need
                (All-append IsCommand stages (start ∷ []) hs (c, tt)) Leads-nil tt
                (subst (λ x. accepts x (categories ts) ≡ true) d k) i.1
                (omega (arith, m, f, length-append stages (start ∷ []))) b in
            subst (λ x. Collected n (elim x [ true ↦ pipe | false ↦ word ])) (sym p)
              (subst (λ q. Collected n (collect q [] ts)) (sym g) r)
        | inr p ↦
            subst (λ x. Collected n (elim x [ true ↦ pipe | false ↦ word ])) (sym p)
              (collect-Collected stages (start ++ t ∷ []) ts s' hs (Leads-snoc start s t s' leads e)
                (All-append IsInside start (t ∷ []) ins (i.0, tt)) k i.1
                (omega (arith, m, count_pipes-word t ts i.0 p)) b)
      ])

has_empty-commands : (ss : List (List Token)) → All IsCommand ss → has_empty ss ≡ false
unfolding has_empty accepts cmd
has_empty-commands [] h = refl
has_empty-commands ([] ∷ ss) h = cc
has_empty-commands ((t ∷ ts) ∷ ss) h = has_empty-commands ss h.1

All-Runs : (ss : List (List Token)) → All IsCommand ss → All Runs ss
All-Runs [] h = tt
All-Runs (s ∷ ss) h = (IsCommand-Runs s h.0, All-Runs ss h.1)

-- The stages of a command are too many for the array, when the command is refused, or they are all
-- there, and each runs.
pub data StagesRun (list : List Token) : Type 0 where
  too_many : 256 < num_stages list → pipeline_stages list ≡ none → StagesRun list
  stages_run :
      (stages : List (List Token))
      → pipeline_stages list ≡ some stages
      → length stages ≡ num_stages list
      → All Runs stages
      → StagesRun list

enough :
    (stages : List (List Token)) (n : ℕ)
    → length stages ≡ n
    → has_empty stages ≡ false
    → (if ltb (length stages) n || has_empty stages then none else some stages) ≡ some stages
enough stages n h k = ground arith

refused_stages :
    (stages : List (List Token)) (n : ℕ)
    → length stages < n
    → (if ltb (length stages) n || has_empty stages then none else some stages) ≡ none
refused_stages stages n h = ground arith

-- The array has 256 places.
length-store_stage :
    (stages : List (List Token)) (s : List Token)
    → length stages ≤ 256
    → length (store_stage stages s) ≤ 256
unfolding store_stage
length-store_stage stages s h =
    if_cases (λ (r : List (List Token)). length r ≤ 256) (ltb (length stages) 256)
      (stages ++ s ∷ []) stages (λ room. let more = length-append stages (s ∷ []) in ground arith)
      (λ full. h)

length-collect :
    (stages : List (List Token)) (start ts : List Token)
    → length stages ≤ 256
    → All IsInside start
    → All IsInside ts
    → length (collect stages start ts) ≤ 256
unfolding collect last_stage
length-collect stages [] [] h a b = h
length-collect stages (s ∷ start) [] h a b =
    inside_elim (λ (r : List (List Token)). length r ≤ 256) (separator s.type) _ _ _ a.0
      (length-store_stage stages (s ∷ start) h)
length-collect stages start (t ∷ ts) h a b =
    inside_elim (λ (r : List (List Token)). length r ≤ 256) (separator t.type) _ _ _ b.0
      (if_bool _ _ (is_pipe t.type)
        (length-collect (store_stage stages start) [] ts (length-store_stage stages start h) tt b.1)
        (length-collect stages (start ++ t ∷ []) ts h
          (All-append IsInside start (t ∷ []) a (b.0, tt)) b.1))
  where
    if_bool :
        (x y : List (List Token)) (c : Bool)
        → length x ≤ 256
        → length y ≤ 256
        → length (elim c [ true ↦ x | false ↦ y ]) ≤ 256
    if_bool x y true h k = h
    if_bool x y false h k = k

IsCommand-StagesRun : (list : List Token) → IsCommand list → StagesRun list
unfolding pipeline_stages num_stages
IsCommand-StagesRun list h = elim (le_cases (num_stages list)) [
  | inl b ↦
      let c =
        collect-Collected (num_stages list) [] [] list need tt Leads-nil tt h.accepted h.inside
          (omega arith) b in
      let stages = collect [] [] list in
      stages_run stages
        (enough stages (num_stages list) c.count (has_empty-commands stages c.commands)) c.count
        (All-Runs stages c.commands)
  | inr b ↦ too_many b (
      refused_stages (collect [] [] list) (num_stages list)
        (omega (arith, b, length-collect [] [] list (omega arith) tt h.inside)))
]
  where
    le_cases : (n : ℕ) → (n ≤ 256) ⊎ (256 < n)
    le_cases n = omega arith

-- In a line that the parser accepts, every command starts with a word, its tokens are read
-- without a syntax error and leave a command to run, and if it has at most 256 stages, it is taken
-- apart into as many stages as it has, each of which starts with a word and is read in the same
-- way; with more stages it is refused.
pub parse_tokens-Runs :
    (list : List Token)
    → parse_tokens list ≡ true
    → All (λ c. Runs c.tokens × StagesRun c.tokens) (commands list)
parse_tokens-Runs list h = each (commands list) (commands-IsCommand list h)
  where
    each :
        (cs : List Command)
        → All (λ c. IsCommand c.tokens) cs
        → All (λ c. Runs c.tokens × StagesRun c.tokens) cs
    each [] h = tt
    each (c ∷ cs) h = ((IsCommand-Runs c.tokens h.0, IsCommand-StagesRun c.tokens h.0), each cs h.1)
