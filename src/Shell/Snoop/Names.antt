-- ===== src/Shell/Snoop/Names.antt =====
-- The names of system calls in c-shell/src/snoop.c.
use mini_project.Common.{ℕ, Option, none, some, List, [], ◌∷◌, ◌==◌, if◌then◌else◌}
use mini_project.Shell.Token.{Bytes}

-- The cases of the switch.
abbrev pub syscall_names : List (ℕ × Bytes)
syscall_names =
    (0, b'r' ∷ b'e' ∷ b'a' ∷ b'd' ∷ [])
    ∷ (1, b'w' ∷ b'r' ∷ b'i' ∷ b't' ∷ b'e' ∷ [])
    ∷ (2, b'o' ∷ b'p' ∷ b'e' ∷ b'n' ∷ [])
    ∷ (3, b'c' ∷ b'l' ∷ b'o' ∷ b's' ∷ b'e' ∷ [])
    ∷ (4, b's' ∷ b't' ∷ b'a' ∷ b't' ∷ [])
    ∷ (5, b'f' ∷ b's' ∷ b't' ∷ b'a' ∷ b't' ∷ [])
    ∷ (6, b'l' ∷ b's' ∷ b't' ∷ b'a' ∷ b't' ∷ [])
    ∷ (7, b'p' ∷ b'o' ∷ b'l' ∷ b'l' ∷ [])
    ∷ (8, b'l' ∷ b's' ∷ b'e' ∷ b'e' ∷ b'k' ∷ [])
    ∷ (9, b'm' ∷ b'm' ∷ b'a' ∷ b'p' ∷ [])
    ∷ (10, b'm' ∷ b'p' ∷ b'r' ∷ b'o' ∷ b't' ∷ b'e' ∷ b'c' ∷ b't' ∷ [])
    ∷ (11, b'm' ∷ b'u' ∷ b'n' ∷ b'm' ∷ b'a' ∷ b'p' ∷ [])
    ∷ (12, b'b' ∷ b'r' ∷ b'k' ∷ [])
    ∷ (13, b'r' ∷ b't' ∷ b'_' ∷ b's' ∷ b'i' ∷ b'g' ∷ b'a' ∷ b'c' ∷ b't' ∷ b'i' ∷ b'o' ∷ b'n' ∷ [])
    ∷ (
      14,
      b'r' ∷ b't' ∷ b'_' ∷ b's' ∷ b'i' ∷ b'g' ∷ b'p' ∷ b'r' ∷ b'o' ∷ b'c' ∷ b'm' ∷ b'a' ∷ b's'
          ∷ b'k' ∷ [],
    )
    ∷ (15, b'r' ∷ b't' ∷ b'_' ∷ b's' ∷ b'i' ∷ b'g' ∷ b'r' ∷ b'e' ∷ b't' ∷ b'u' ∷ b'r' ∷ b'n' ∷ [])
    ∷ (16, b'i' ∷ b'o' ∷ b'c' ∷ b't' ∷ b'l' ∷ [])
    ∷ (17, b'p' ∷ b'r' ∷ b'e' ∷ b'a' ∷ b'd' ∷ b'6' ∷ b'4' ∷ [])
    ∷ (18, b'p' ∷ b'w' ∷ b'r' ∷ b'i' ∷ b't' ∷ b'e' ∷ b'6' ∷ b'4' ∷ [])
    ∷ (19, b'r' ∷ b'e' ∷ b'a' ∷ b'd' ∷ b'v' ∷ [])
    ∷ (20, b'w' ∷ b'r' ∷ b'i' ∷ b't' ∷ b'e' ∷ b'v' ∷ [])
    ∷ (21, b'a' ∷ b'c' ∷ b'c' ∷ b'e' ∷ b's' ∷ b's' ∷ [])
    ∷ (22, b'p' ∷ b'i' ∷ b'p' ∷ b'e' ∷ [])
    ∷ (23, b's' ∷ b'e' ∷ b'l' ∷ b'e' ∷ b'c' ∷ b't' ∷ [])
    ∷ (24, b's' ∷ b'c' ∷ b'h' ∷ b'e' ∷ b'd' ∷ b'_' ∷ b'y' ∷ b'i' ∷ b'e' ∷ b'l' ∷ b'd' ∷ [])
    ∷ (25, b'm' ∷ b'r' ∷ b'e' ∷ b'm' ∷ b'a' ∷ b'p' ∷ [])
    ∷ (28, b'm' ∷ b'a' ∷ b'd' ∷ b'v' ∷ b'i' ∷ b's' ∷ b'e' ∷ [])
    ∷ (32, b'd' ∷ b'u' ∷ b'p' ∷ [])
    ∷ (33, b'd' ∷ b'u' ∷ b'p' ∷ b'2' ∷ [])
    ∷ (35, b'n' ∷ b'a' ∷ b'n' ∷ b'o' ∷ b's' ∷ b'l' ∷ b'e' ∷ b'e' ∷ b'p' ∷ [])
    ∷ (39, b'g' ∷ b'e' ∷ b't' ∷ b'p' ∷ b'i' ∷ b'd' ∷ [])
    ∷ (41, b's' ∷ b'o' ∷ b'c' ∷ b'k' ∷ b'e' ∷ b't' ∷ [])
    ∷ (42, b'c' ∷ b'o' ∷ b'n' ∷ b'n' ∷ b'e' ∷ b'c' ∷ b't' ∷ [])
    ∷ (43, b'a' ∷ b'c' ∷ b'c' ∷ b'e' ∷ b'p' ∷ b't' ∷ [])
    ∷ (56, b'c' ∷ b'l' ∷ b'o' ∷ b'n' ∷ b'e' ∷ [])
    ∷ (57, b'f' ∷ b'o' ∷ b'r' ∷ b'k' ∷ [])
    ∷ (58, b'v' ∷ b'f' ∷ b'o' ∷ b'r' ∷ b'k' ∷ [])
    ∷ (59, b'e' ∷ b'x' ∷ b'e' ∷ b'c' ∷ b'v' ∷ b'e' ∷ [])
    ∷ (60, b'e' ∷ b'x' ∷ b'i' ∷ b't' ∷ [])
    ∷ (61, b'w' ∷ b'a' ∷ b'i' ∷ b't' ∷ b'4' ∷ [])
    ∷ (62, b'k' ∷ b'i' ∷ b'l' ∷ b'l' ∷ [])
    ∷ (63, b'u' ∷ b'n' ∷ b'a' ∷ b'm' ∷ b'e' ∷ [])
    ∷ (72, b'f' ∷ b'c' ∷ b'n' ∷ b't' ∷ b'l' ∷ [])
    ∷ (78, b'g' ∷ b'e' ∷ b't' ∷ b'd' ∷ b'e' ∷ b'n' ∷ b't' ∷ b's' ∷ [])
    ∷ (79, b'g' ∷ b'e' ∷ b't' ∷ b'c' ∷ b'w' ∷ b'd' ∷ [])
    ∷ (80, b'c' ∷ b'h' ∷ b'd' ∷ b'i' ∷ b'r' ∷ [])
    ∷ (87, b'u' ∷ b'n' ∷ b'l' ∷ b'i' ∷ b'n' ∷ b'k' ∷ [])
    ∷ (89, b'r' ∷ b'e' ∷ b'a' ∷ b'd' ∷ b'l' ∷ b'i' ∷ b'n' ∷ b'k' ∷ [])
    ∷ (102, b'g' ∷ b'e' ∷ b't' ∷ b'u' ∷ b'i' ∷ b'd' ∷ [])
    ∷ (104, b'g' ∷ b'e' ∷ b't' ∷ b'g' ∷ b'i' ∷ b'd' ∷ [])
    ∷ (107, b'g' ∷ b'e' ∷ b't' ∷ b'e' ∷ b'u' ∷ b'i' ∷ b'd' ∷ [])
    ∷ (108, b'g' ∷ b'e' ∷ b't' ∷ b'e' ∷ b'g' ∷ b'i' ∷ b'd' ∷ [])
    ∷ (110, b'g' ∷ b'e' ∷ b't' ∷ b'p' ∷ b'p' ∷ b'i' ∷ b'd' ∷ [])
    ∷ (112, b's' ∷ b'e' ∷ b't' ∷ b's' ∷ b'i' ∷ b'd' ∷ [])
    ∷ (137, b's' ∷ b't' ∷ b'a' ∷ b't' ∷ b'f' ∷ b's' ∷ [])
    ∷ (157, b'p' ∷ b'r' ∷ b'c' ∷ b't' ∷ b'l' ∷ [])
    ∷ (158, b'a' ∷ b'r' ∷ b'c' ∷ b'h' ∷ b'_' ∷ b'p' ∷ b'r' ∷ b'c' ∷ b't' ∷ b'l' ∷ [])
    ∷ (202, b'f' ∷ b'u' ∷ b't' ∷ b'e' ∷ b'x' ∷ [])
    ∷ (217, b'g' ∷ b'e' ∷ b't' ∷ b'd' ∷ b'e' ∷ b'n' ∷ b't' ∷ b's' ∷ b'6' ∷ b'4' ∷ [])
    ∷ (
      218,
      b's' ∷ b'e' ∷ b't' ∷ b'_' ∷ b't' ∷ b'i' ∷ b'd' ∷ b'_' ∷ b'a' ∷ b'd' ∷ b'd' ∷ b'r' ∷ b'e'
          ∷ b's' ∷ b's' ∷ [],
    )
    ∷ (
      228,
      b'c' ∷ b'l' ∷ b'o' ∷ b'c' ∷ b'k' ∷ b'_' ∷ b'g' ∷ b'e' ∷ b't' ∷ b't' ∷ b'i' ∷ b'm' ∷ b'e' ∷ [],
    )
    ∷ (
      230,
      b'c' ∷ b'l' ∷ b'o' ∷ b'c' ∷ b'k' ∷ b'_' ∷ b'n' ∷ b'a' ∷ b'n' ∷ b'o' ∷ b's' ∷ b'l' ∷ b'e'
          ∷ b'e' ∷ b'p' ∷ [],
    )
    ∷ (231, b'e' ∷ b'x' ∷ b'i' ∷ b't' ∷ b'_' ∷ b'g' ∷ b'r' ∷ b'o' ∷ b'u' ∷ b'p' ∷ [])
    ∷ (257, b'o' ∷ b'p' ∷ b'e' ∷ b'n' ∷ b'a' ∷ b't' ∷ [])
    ∷ (262, b'n' ∷ b'e' ∷ b'w' ∷ b'f' ∷ b's' ∷ b't' ∷ b'a' ∷ b't' ∷ b'a' ∷ b't' ∷ [])
    ∷ (
      273,
      b's' ∷ b'e' ∷ b't' ∷ b'_' ∷ b'r' ∷ b'o' ∷ b'b' ∷ b'u' ∷ b's' ∷ b't' ∷ b'_' ∷ b'l' ∷ b'i'
          ∷ b's' ∷ b't' ∷ [],
    )
    ∷ (293, b'p' ∷ b'i' ∷ b'p' ∷ b'e' ∷ b'2' ∷ [])
    ∷ (302, b'p' ∷ b'r' ∷ b'l' ∷ b'i' ∷ b'm' ∷ b'i' ∷ b't' ∷ b'6' ∷ b'4' ∷ [])
    ∷ (318, b'g' ∷ b'e' ∷ b't' ∷ b'r' ∷ b'a' ∷ b'n' ∷ b'd' ∷ b'o' ∷ b'm' ∷ [])
    ∷ (332, b's' ∷ b't' ∷ b'a' ∷ b't' ∷ b'x' ∷ [])
    ∷ (334, b'r' ∷ b's' ∷ b'e' ∷ b'q' ∷ [])
    ∷ (435, b'c' ∷ b'l' ∷ b'o' ∷ b'n' ∷ b'e' ∷ b'3' ∷ [])
    ∷ []

unfoldable pub find_name : ℕ → List (ℕ × Bytes) → Option Bytes
find_name num [] = none
find_name num ((n, name) ∷ rest) = if num == n then some name else find_name num rest

unfoldable pub get_syscall_name : ℕ → Option Bytes
unfolding find_name
get_syscall_name num = find_name num syscall_names
