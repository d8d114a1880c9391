-- ===== src/Shell/Commands/Bounds.antt =====
-- The fixed arrays into which a command is read: the text of a job in c-shell/src/jobs.c, and the
-- arguments and file names in c-shell/src/execute.c.
use mini_project.Common.{
  ℕ, suc, ◌+◌, ◌≤◌, ◌<◌, true, false, Option, none, some, List, [], ◌∷◌, ◌≡◌, ap, arith, subst,
  length, length-append,
}
use mini_project.Shell.Token.{Bytes, TokenCategory, op_lt, op_gt, op_gtgt, op_word, Token}
use mini_project.Shell.Commands.{
  add_space, add_token_text, token_text, reconstruct_from, reconstruct_cmd_str, Redirection, input,
  truncate, append, Invocation, empty_invocation, add_file, add_arg, scan_token, scan_end, scan,
  group, read_invocation,
}

add_space-length_lt : (n : ℕ) (out : Bytes) → length out < n → length (add_space n out) < n
unfolding add_space
add_space-length_lt n out h = ground (arith, length-append out (b' ' ∷ []))

add_token_text-length_lt :
    (n : ℕ) (out text : Bytes) → length out < n → length (add_token_text n out text) < n
unfolding add_token_text
add_token_text-length_lt n out [] h = h
add_token_text-length_lt n out (c ∷ text) h =
    ground (arith, add_space-length_lt n out h, length-append (add_space n out) (c ∷ text))

reconstruct_from-length_lt :
    (n : ℕ) (out : Bytes) (ts : List Token)
    → length out < n
    → length (reconstruct_from n out ts) < n
unfolding reconstruct_from
reconstruct_from-length_lt n out [] h = h
reconstruct_from-length_lt n out (t ∷ ts) h =
    reconstruct_from-length_lt n (add_token_text n out (token_text t.type t.text)) ts
      (add_token_text-length_lt n out (token_text t.type t.text) h)

-- The text of a command and its terminator fit into a buffer of any positive size, whatever the
-- tokens.
pub reconstruct_cmd_str-length_lt :
    (list : List Token) (out_len : ℕ)
    → 0 < out_len
    → length (reconstruct_cmd_str list out_len) < out_len
unfolding reconstruct_cmd_str
reconstruct_cmd_str-length_lt list out_len h = reconstruct_from-length_lt out_len [] list h

abbrev pub redirection : TokenCategory → ℕ
redirection op_lt = 1
redirection op_gt = 1
redirection op_gtgt = 1
redirection _ = 0

unfoldable pub redirections : List Token → ℕ
redirections [] = 0
redirections (t ∷ ts) = redirection t.type + redirections ts

-- The file names that are stored, and the one that is due.
abbrev files : Option Redirection → Invocation → ℕ
files none v = length v.input_files + length v.output_files
files (some r) v = suc (length v.input_files + length v.output_files)

-- The arguments and files are `n` more than in `v` by one token, if there is no syntax error.
abbrev Stores : ℕ → Option (Option Redirection × Invocation) → Type 0
Stores n none = Unit
Stores n (some (pending, w)) = (length w.argv ≤ 255) × (files pending w ≡ n)

add_file-Stores :
    (r : Redirection) (path : Bytes) (v : Invocation)
    → length v.argv ≤ 255
    → Stores (files (some r) v) (some (none, add_file r path v))
unfolding add_file
add_file-Stores input path v h = (h, omega (arith, length-append v.input_files (path ∷ [])))
add_file-Stores truncate path v h = (
  h,
  omega (arith, length-append v.output_files (record { path = path; is_append = false } ∷ [])),
)
add_file-Stores append path v h =
    (h, omega (arith, length-append v.output_files (record { path = path; is_append = true } ∷ [])))

add_arg-Stores :
    (text : Bytes) (v : Invocation)
    → length v.argv ≤ 255
    → Stores (files none v) (some (none, add_arg text v))
unfolding add_arg
add_arg-Stores text v h = ground (arith, length-append v.argv (text ∷ []))

scan_token-Stores :
    (pending : Option Redirection) (c : TokenCategory) (text : Bytes) (v : Invocation)
    → length v.argv ≤ 255
    → Stores (redirection c + files pending v) (scan_token pending c text v)
unfolding scan_token
scan_token-Stores (some r) op_word text v h =
    let k = add_file-Stores r text v h in (k.0, omega (arith, k.1))
scan_token-Stores (some r) _ text v h = tt
scan_token-Stores none op_word text v h =
    let k = add_arg-Stores text v h in (k.0, omega (arith, k.1))
scan_token-Stores none op_lt text v h = (h, omega arith)
scan_token-Stores none op_gt text v h = (h, omega arith)
scan_token-Stores none op_gtgt text v h = (h, omega arith)
scan_token-Stores none _ text v h = (h, omega arith)

-- At most 255 arguments and exactly `n` files, if there is no syntax error.
abbrev Kept : ℕ → Option Invocation → Type 0
Kept n none = Unit
Kept n (some w) = (length w.argv ≤ 255) × (length w.input_files + length w.output_files ≡ n)

Kept-eq : (m n : ℕ) (o : Option Invocation) → m ≡ n → Kept m o → Kept n o
Kept-eq m n o e h = subst (λ k. Kept k o) e h

Kept-rest :
    (n m : ℕ) (o : Option (Option Redirection × Invocation))
    (rest : Option Redirection → Invocation → Option Invocation)
    → Stores n o
    → ((p : Option Redirection) (u : Invocation)
        → length u.argv ≤ 255
        → Kept (files p u + m) (rest p u))
    → Kept (n + m) (elim o [ none ↦ none | some (p, u) ↦ rest p u ])
Kept-rest n m none rest h k = tt
Kept-rest n m (some (p, u)) rest h k =
    Kept-eq (files p u + m) (n + m) (rest p u) (ap (λ l. l + m) h.1) (k p u h.0)

scan-Kept :
    (pending : Option Redirection) (v : Invocation) (ts : List Token)
    → length v.argv ≤ 255
    → Kept (files pending v + redirections ts) (scan pending v ts)
unfolding scan scan_end redirections
scan-Kept none v [] h = (h, omega arith)
scan-Kept (some r) v [] h = tt
scan-Kept pending v (t ∷ ts) h =
    let o = scan_token pending t.type t.text v in
    let rest = λ (p : Option Redirection) (u : Invocation). scan p u ts in
    Kept-eq _ _ (elim o [ none ↦ none | some (p, u) ↦ scan p u ts ]) (omega arith)
      (Kept-rest (redirection t.type + files pending v) (redirections ts) o rest
        (scan_token-Stores pending t.type t.text v h) (λ p u. scan-Kept p u ts))

-- A command that is read without a syntax error has at most 255 arguments, and as many file names
-- are stored for it as there are `<`, `>` and `>>` up to its first `;` or `&`.
pub read_invocation-files :
    (list : List Token) (v : Invocation)
    → read_invocation list ≡ some v
    → (length v.argv ≤ 255)
      × (length v.input_files + length v.output_files ≡ redirections (group list))
unfolding read_invocation
read_invocation-files list v e = subst (Kept (redirections (group list))) e (
    Kept-eq _ _ (read_invocation list) (omega arith)
      (scan-Kept none empty_invocation (group list) (omega arith)))
