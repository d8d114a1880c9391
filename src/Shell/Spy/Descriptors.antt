-- ===== src/Shell/Spy/Descriptors.antt =====
-- The descriptors that c-shell/src/spy.c lists.
use mathlib.Core.List.{Perm}
use mini_project.Common.{
  ℕ, zero, suc, true, false, List, [], ◌∷◌, ◌≡◌, arith, All, All-filter_by, filter_by, take,
  sort_by-perm, sort_by-IsSortedBy, IsSortedBy,
}
use mini_project.Shell.Token.{Bytes}
use mini_project.Shell.Spy.{is_number, fd_le, sorted_fds}

fd_le-total : (a b : Bytes) → fd_le a b ≡ false → fd_le b a ≡ true
fd_le-total a b h = ground arith

fd_le_trans : (a b c : Bytes) → fd_le a b ≡ true → fd_le b c ≡ true → fd_le a c ≡ true
fd_le_trans a b c h k = ground arith

All-take : (P : Bytes → Type 0) (n : ℕ) (xs : List Bytes) → All P xs → All P (take n xs)
All-take P zero xs h = tt
All-take P (suc n) [] h = tt
All-take P (suc n) (x ∷ xs) h = (h.0, All-take P n xs h.1)

-- The descriptors are the first 512 names of digits, by their numbers.
pub sorted_fds-IsSortedBy :
    (names : List Bytes)
    → (fds : List Bytes) × Perm (sorted_fds names) fds
      × All (λ name. is_number name ≡ true) fds
      × IsSortedBy fd_le (sorted_fds names)
unfolding sorted_fds
sorted_fds-IsSortedBy names =
    let fds = take 512 (filter_by is_number names) in
    (
      fds,
      sort_by-perm fd_le fds,
      All-take (λ name. is_number name ≡ true) 512 (filter_by is_number names)
          (All-filter_by is_number names),
      sort_by-IsSortedBy fd_le fd_le-total fd_le_trans fds,
    )
