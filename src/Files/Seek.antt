-- ===== src/Files/Seek.antt =====
-- `sys_lseek` of sparrow/fs/fs.c keeps the position inside the file.
use sparrow_os.Common.{
  ℕ, ◌^◌, ◌<◌, ◌≡◌, inl, inr, refl, true, false, not, ◌&&◌, ◌||◌, Option, none, some, arith, ltb,
  if◌then◌else◌, sub32, done, Bool-cases, lt→ltb, ◌+◌, ◌%◌,
}
use sparrow_os.Files.{
  FileSystem, set_file, checked, fd_local2global, int_lt, new_position, sys_lseek,
}

-- The size of the file in slot `g`.
abbrev pub size_of : ℕ → FileSystem → ℕ
size_of g s = (s.open_inodes.inodes (s.file_table g).fd_inode).i_size

-- The answer to a move to `target`: the position, or -1 where it lies outside the file.
abbrev pub moved : ℕ → ℕ → FileSystem → Option ℕ × FileSystem
moved g target s =
    if ltb target (size_of g s)
    then (some target, set_file g (record (s.file_table g) { fd_pos = target }) s)
    else (none, s)

fd_local2global_lem :
    (fd g : ℕ) (s : FileSystem) → s.fd_table fd ≡ some g → g < 32 → fd_local2global fd s ≡ done g
unfolding fd_local2global checked
fd_local2global_lem fd g s e small = rw (e, lt→ltb g 32 small) refl

new_position-lt :
    (whence offset fd_pos size : ℕ)
    → offset < 2 ^ 32
    → new_position whence offset fd_pos size < 2 ^ 32
unfolding new_position
new_position-lt whence offset fd_pos size h = ground arith

-- The two signed tests of `sys_lseek` are one test on words.
signed_tests :
    (target size : ℕ)
    → target < 2 ^ 32
    → size < 2 ^ 31
    → (int_lt target 0 || int_lt (sub32 size 1) target) ≡ not (ltb target size)
signed_tests target size ht hs = ground arith

sys_lseek-new_position :
    (fd g offset whence : ℕ) (s : FileSystem)
    → fd < 8
    → s.fd_table fd ≡ some g
    → g < 32
    → 0 < whence
    → whence < 4
    → offset < 2 ^ 32
    → size_of g s < 2 ^ 31
    → sys_lseek fd offset whence s
      ≡ done (moved g (new_position whence offset (s.file_table g).fd_pos (size_of g s)) s)
unfolding sys_lseek
sys_lseek-new_position fd g offset whence s hf e hg pos small ho hs =
    let target = new_position whence offset (s.file_table g).fd_pos (size_of g s) in
    let word = new_position-lt whence offset (s.file_table g).fd_pos (size_of g s) ho in
    let open_fd : int_lt fd 0 ≡ false = ground arith in
    let test : (ltb 0 whence && ltb whence 4) ≡ true = ground arith in
    let tests = signed_tests target (size_of g s) word hs in
    rw (open_fd, test, fd_local2global_lem fd g s e hg, tests)
      (elim (Bool-cases (ltb target (size_of g s))) [
        | inl inside ↦ rw inside refl
        | inr outside ↦ rw outside refl
      ])

-- For a descriptor below 8 that names a slot of the file table whose file has less than 2 GB, and
-- an offset that is a word, `sys_lseek` always ends: with SEEK_SET (1) it moves to the offset, with
-- SEEK_CUR (2) to the position plus the offset, with SEEK_END (3) to the size of the file plus the
-- offset, the sums modulo 2^32. A move goes there and returns the target if it lies in the file,
-- and else returns -1 and changes nothing.
pub sys_lseek-moved :
    (fd g offset : ℕ) (s : FileSystem)
    → fd < 8
    → s.fd_table fd ≡ some g
    → g < 32
    → offset < 2 ^ 32
    → size_of g s < 2 ^ 31
    → (sys_lseek fd offset 1 s ≡ done (moved g offset s))
      × (sys_lseek fd offset 2 s ≡ done (moved g (((s.file_table g).fd_pos + offset) % 2 ^ 32) s))
      × (sys_lseek fd offset 3 s ≡ done (moved g ((size_of g s + offset) % 2 ^ 32) s))
unfolding new_position
sys_lseek-moved fd g offset s hf e hg ho hs = (
  sys_lseek-new_position fd g offset 1 s hf e hg (omega arith) (omega arith) ho hs,
  sys_lseek-new_position fd g offset 2 s hf e hg (omega arith) (omega arith) ho hs,
  sys_lseek-new_position fd g offset 3 s hf e hg (omega arith) (omega arith) ho hs,
)
