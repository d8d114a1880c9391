-- ===== src/Shell/Execute/Copying.antt =====
-- The copying of bytes for several redirections in c-shell/src/execute.c: the process that feeds
-- the input files into a pipe, and the one that writes what comes out of a pipe to every output
-- file. `execute_cmd_internal` and `execute_stage_child` have the same code for it. A pipe has room
-- for `capacity` bytes, and a `write` for which there is no room waits for a reader.
pub mod Poured
pub mod Written
use mini_project.Common.{
  ℕ, zero, suc, ◌+◌, Bool, true, false, Option, none, some, List, [], ◌∷◌, ◌++◌, ◌==◌, leb,
  if◌then◌else◌, length, take, drop,
}
use mini_project.Shell.Token.{Bytes}

abbrev pub buf_size : ℕ
buf_size = 4096

-- What the calls of `read` give until the end; the first argument is fuel.
unfoldable pub chunks_from : ℕ → Bytes → List Bytes
chunks_from zero s = []
chunks_from (suc fuel) [] = []
chunks_from (suc fuel) (c ∷ s) = take buf_size (c ∷ s) ∷ chunks_from fuel (drop buf_size (c ∷ s))

-- Each call reads a byte at least.
unfoldable pub chunks_of : Bytes → List Bytes
unfolding chunks_from
chunks_of s = chunks_from (length s) s

-- What has become of the feeder: it has ended, or it waits for room, with what it has written.
pub data Fed : Type 0 where
  fed stuck : Bytes → Fed

unfoldable pub feed_chunks : ℕ → List Bytes → Bytes → Fed
feed_chunks capacity [] sent = fed sent
feed_chunks capacity (c ∷ cs) sent = elim (leb (length sent + length c) capacity) [
  | true ↦ feed_chunks capacity cs (sent ++ c)
  | false ↦ stuck (take capacity (sent ++ c))
]

-- A file that cannot be opened is passed over.
unfoldable pub feed_file : ℕ → Option Bytes → Bytes → Fed
unfolding feed_chunks chunks_of
feed_file capacity none sent = fed sent
feed_file capacity (some content) sent = feed_chunks capacity (chunks_of content) sent

-- The feeder; nobody reads before it has ended.
unfoldable pub feed_files : (Bytes → Option Bytes) → ℕ → List Bytes → Bytes → Fed
unfolding feed_file
feed_files read capacity [] sent = fed sent
feed_files read capacity (f ∷ fs) sent = elim (feed_file capacity (read f) sent) [
  | fed sent' ↦ feed_files read capacity fs sent'
  | stuck sent' ↦ stuck sent'
]

-- What the standard input of the program becomes, if it is started.
pub data Stdin : Type 0 where
  inherited : Stdin
  holds : Bytes → Stdin
  never_started : Bytes → Stdin

abbrev input_from : Option Bytes → Stdin
input_from none = inherited
input_from (some content) = holds content

-- The child waits for the feeder.
abbrev pub await_feeder : Fed → Stdin
await_feeder (fed sent) = holds sent
await_feeder (stuck sent) = never_started sent

-- Without a feeder the pipe is empty, and its writing end closed.
abbrev fork_feeder : Bool → Fed → Stdin
fork_feeder forked sent = if forked then await_feeder sent else holds []

unfoldable pub redirect_input : Bool → Bool → (Bytes → Option Bytes) → ℕ → List Bytes → Stdin
unfolding feed_files
redirect_input piped forked read capacity [] = inherited
redirect_input piped forked read capacity (f ∷ []) = input_from (read f)
redirect_input piped forked read capacity (f ∷ g ∷ fs) =
    if piped then fork_feeder forked (feed_files read capacity (f ∷ g ∷ fs) []) else inherited

-- The loop around `write` for one chunk, `write` telling how many bytes it takes behind those that
-- stand in the file; 0 is also a failure. The second argument is fuel.
unfoldable pub write_rest : (Bytes → Bytes → ℕ) → ℕ → Bytes → Bytes → Bytes
write_rest write zero out rest = out
write_rest write (suc fuel) out [] = out
write_rest write (suc fuel) out (c ∷ s) =
    let w = write out (c ∷ s) in
    let more = write_rest write fuel (out ++ take w (c ∷ s)) (drop w (c ∷ s)) in
    if w == 0 then out else more

-- Each round writes a byte at least.
unfoldable pub write_chunk : (Bytes → Bytes → ℕ) → Bytes → Bytes → Bytes
unfolding write_rest
write_chunk write out c = write_rest write (length c) out c

-- An output file: how it takes bytes, and what stands in it.
pub record Sink : Type 0 where
  pub write : Bytes → Bytes → ℕ
  pub content : Bytes

unfoldable pub write_sinks : Bytes → List Sink → List Sink
unfolding write_chunk
write_sinks c [] = []
write_sinks c (k ∷ ks) = record k { content = write_chunk k.write k.content c } ∷ write_sinks c ks

-- The writer, for the chunks that it reads from its pipe.
unfoldable pub write_outputs : List Bytes → List Sink → List Sink
unfolding write_sinks
write_outputs [] ks = ks
write_outputs (c ∷ cs) ks = write_outputs cs (write_sinks c ks)
