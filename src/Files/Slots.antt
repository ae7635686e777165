-- ===== src/Files/Slots.antt =====
-- The slots of the file table and the descriptors of a thread (sparrow/fs/file.c).
use sparrow_os.Common.{
  ℕ, zero, suc, ◌+◌, ◌<◌, ◌≤◌, ◌≡◌, inl, inr, refl, ap, ◌∙◌, Bool, true, false, Option, none, some,
  arith, ◌==◌, Bool-cases, eq-true,
}
use sparrow_os.Files.{
  FileSystem, set_fd, is_free, free_slot_from, get_free_slot_in_global, free_fd_from, install_at,
  pcb_fd_install,
}

-- The first free place of those from `i` on, or none of the `left` places is free.
abbrev pub FirstFree : (ℕ → Bool) → ℕ → ℕ → Option ℕ → Type 0
FirstFree free left i none = (j : ℕ) → i ≤ j → j < i + left → free j ≡ false
FirstFree free left i (some k) =
    (i ≤ k) × (k < i + left) × (free k ≡ true) × ((j : ℕ) → i ≤ j → j < k → free j ≡ false)

-- A place that is not free in front of the others.
FirstFree-skip :
    (free : ℕ → Bool) (left i : ℕ) (o : Option ℕ)
    → free i ≡ false
    → FirstFree free left (i + 1) o
    → FirstFree free (suc left) i o
FirstFree-skip free left i none taken f = λ j a b. elim (Bool-cases (j == i)) [
  | inl same ↦ ap free (eq-true j i same) ∙ taken
  | inr other ↦ f j (ground arith) (omega arith)
]
FirstFree-skip free left i (some k) taken (a, b, c, d) = (
  omega arith,
  omega arith,
  c,
  λ j p q. elim (Bool-cases (j == i)) [
    | inl same ↦ ap free (eq-true j i same) ∙ taken
    | inr other ↦ d j (ground arith) q
  ],
)

abbrev pub slot_is_free : FileSystem → ℕ → Bool
slot_is_free s g = (s.file_table g).fd_inode == 0

free_slot_from-FirstFree :
    (s : FileSystem) (left i : ℕ)
    → FirstFree (slot_is_free s) left i (free_slot_from s.file_table left i)
unfolding free_slot_from
free_slot_from-FirstFree s zero i = λ j a b. absurd (omega arith)
free_slot_from-FirstFree s (suc left) i = elim (Bool-cases (slot_is_free s i)) [
  | inl free ↦ rw free (omega arith, omega arith, free, λ j a b. absurd (omega arith))
  | inr taken ↦ rw taken (
      FirstFree-skip (slot_is_free s) left i (free_slot_from s.file_table left (i + 1)) taken
        (free_slot_from-FirstFree s left (i + 1)))
]

abbrev pub fd_is_free : FileSystem → ℕ → Bool
fd_is_free s fd = is_free (s.fd_table fd)

free_fd_from-FirstFree :
    (s : FileSystem) (left i : ℕ) → FirstFree (fd_is_free s) left i (free_fd_from s.fd_table left i)
unfolding free_fd_from
free_fd_from-FirstFree s zero i = λ j a b. absurd (omega arith)
free_fd_from-FirstFree s (suc left) i = elim (Bool-cases (fd_is_free s i)) [
  | inl free ↦ rw free (omega arith, omega arith, free, λ j a b. absurd (omega arith))
  | inr taken ↦ rw taken (
      FirstFree-skip (fd_is_free s) left i (free_fd_from s.fd_table left (i + 1)) taken
        (free_fd_from-FirstFree s left (i + 1)))
]

-- `get_free_slot_in_global` gives the first free slot from 3 to 31, or there is none.
pub get_free_slot_in_global-FirstFree :
    (s : FileSystem) → FirstFree (slot_is_free s) 29 3 (get_free_slot_in_global s)
unfolding get_free_slot_in_global
get_free_slot_in_global-FirstFree s = free_slot_from-FirstFree s 29 3

-- What `pcb_fd_install` gives for the file in slot `g`.
abbrev pub Installs : ℕ → FileSystem → Option ℕ × FileSystem → Type 0
Installs g s (none, s') = (s' ≡ s) × ((fd : ℕ) → 3 ≤ fd → fd < 8 → fd_is_free s fd ≡ false)
Installs g s (some fd, s') =
    (s' ≡ set_fd fd (some g) s)
    × (3 ≤ fd)
    × (fd < 8)
    × (fd_is_free s fd ≡ true)
    × ((j : ℕ) → 3 ≤ j → j < fd → fd_is_free s j ≡ false)

install_at-Installs :
    (g : ℕ) (s : FileSystem) (o : Option ℕ)
    → FirstFree (fd_is_free s) 5 3 o
    → Installs g s (install_at (some g) s o)
unfolding install_at
install_at-Installs g s none f = (refl, λ fd a b. f fd a (omega arith))
install_at-Installs g s (some fd) (a, b, c, d) = (refl, a, omega arith, c, d)

-- `pcb_fd_install` puts the slot into the first free descriptor from 3 to 7 and returns it; where
-- all of them are taken it returns -1 and changes nothing.
pub pcb_fd_install-Installs : (g : ℕ) (s : FileSystem) → Installs g s (pcb_fd_install (some g) s)
unfolding pcb_fd_install
pcb_fd_install-Installs g s =
    install_at-Installs g s (free_fd_from s.fd_table 5 3) (free_fd_from-FirstFree s 5 3)
