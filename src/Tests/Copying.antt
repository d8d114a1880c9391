-- ===== src/Tests/Copying.antt =====
-- Redirections from and to several files.
use mini_project.Common.{true, some, [], ◌∷◌, ◌≡◌, refl}
use mini_project.Shell.Token.{Bytes}
use mini_project.Shell.Execute.Copying.{holds, never_started, redirect_input, Sink, write_outputs}
use mini_project.Shell.Execute.Copying.Poured.{contents, redirect_input-poured}

abbrev a_file : Bytes
a_file = b'a' ∷ b'b' ∷ []

abbrev b_file : Bytes
b_file = b'c' ∷ b'd' ∷ []

redirect_input-poured_example :
    redirect_input true true (λ f. some f) 3 (a_file ∷ b_file ∷ [])
    ≡ never_started (b'a' ∷ b'b' ∷ b'c' ∷ [])
unfolding contents
redirect_input-poured_example = redirect_input-poured 3 (λ f. some f) a_file b_file []

-- There is room in the pipe.
both_read :
    redirect_input true true (λ f. some f) 65536 (a_file ∷ b_file ∷ [])
    ≡ holds (b'a' ∷ b'b' ∷ b'c' ∷ b'd' ∷ [])
unfolding redirect_input
both_read = refl

-- Takes one byte each time.
abbrev slow : Sink
slow = record { write = λ out rest. 1; content = a_file }

written :
    write_outputs (b_file ∷ a_file ∷ []) (slow ∷ [])
    ≡ record slow { content = b'a' ∷ b'b' ∷ b'c' ∷ b'd' ∷ b'a' ∷ b'b' ∷ [] } ∷ []
unfolding write_outputs
written = refl
