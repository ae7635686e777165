-- ===== src/Files/PipeEnds.antt =====
-- The two ends of a pipe (sparrow/shell/pipe.c) and `sys_close` (sparrow/fs/fs.c).
use sparrow_os.Common.{
  ℕ, suc, ◌^◌, ◌<◌, ◌≡◌, ◌≢◌, refl, ap, ◌∙◌, true, false, none, some, ◌∷◌, arith, ltb, ◌==◌,
  if◌then◌else◌, sub32, done, lt→ltb, eq_self,
}
use sparrow_os.Files.{FileSystem, set_fd, checked, fd_local2global, is_pipe, close_end, sys_close}

-- Descriptor `fd` of the thread is an end of the pipe in slot `g`, which has `n` ends and its ring
-- at `page`.
pub record IsEnd (s : FileSystem) (fd g n page : ℕ) : Type 0 where
  pub user : 2 < fd
  pub small : fd < 8
  pub slot : s.fd_table fd ≡ some g
  pub inside : g < 32
  pub file : s.file_table g ≡ record { fd_pos = n; fd_flag = 0xFFFF; fd_inode = page }

end_lem :
    (fd g n page : ℕ) (s : FileSystem)
    → IsEnd s fd g n page
    → sys_close fd s ≡ done (some 0, set_fd fd none (close_end g s))
unfolding sys_close fd_local2global is_pipe checked
end_lem fd g n page s h =
    let low : ltb 2 fd ≡ true = lt→ltb 2 fd h.user in
    let high : ltb fd (2 ^ 31) ≡ true = ground (arith, h.small) in
    let pipe : (s.file_table g).fd_flag ≡ 0xFFFF = ap (λ f. f.fd_flag) h.file in
    rw (low, high, h.slot, lt→ltb g 32 h.inside, pipe) refl

-- A pipe of which more than one end is open loses an end.
one_end :
    (g n page : ℕ) (s : FileSystem)
    → s.file_table g ≡ record { fd_pos = suc (suc n); fd_flag = 0xFFFF; fd_inode = page }
    → suc (suc n) < 2 ^ 32
    → ((close_end g s).file_table g ≡ record { fd_pos = suc n; fd_flag = 0xFFFF; fd_inode = page })
      × ((close_end g s).freed ≡ s.freed)
      × ((close_end g s).fd_table ≡ s.fd_table)
unfolding close_end
one_end g n page s e small =
    let left : sub32 (suc (suc n)) 1 ≡ suc n = omega arith in
    let more : (suc n == 0) ≡ false = ground arith in
    rw (e, left, more, eq_self g) (refl, refl, refl)

-- The last end gives the page back.
last_end :
    (g page : ℕ) (s : FileSystem)
    → s.file_table g ≡ record { fd_pos = 1; fd_flag = 0xFFFF; fd_inode = page }
    → (((close_end g s).file_table g).fd_inode ≡ 0)
      × ((close_end g s).freed ≡ page ∷ s.freed)
      × ((close_end g s).fd_table ≡ s.fd_table)
unfolding close_end
last_end g page s e = rw (e, eq_self g) (refl, refl, refl)

-- After both ends of a pipe were closed, in `s2` by way of `s1`.
pub record PipeClosed (g page a b : ℕ) (s s1 s2 : FileSystem) : Type 0 where
  pub kept : s1.freed ≡ s.freed
  pub freed : s2.freed ≡ page ∷ s.freed
  pub slot : (s2.file_table g).fd_inode ≡ 0
  pub fds :
      (k : ℕ) → s2.fd_table k ≡ (if k == b then none else if k == a then none else s.fd_table k)

pub close_both :
    (g page a b : ℕ) (s : FileSystem)
    → a ≢ b
    → IsEnd s a g 2 page
    → IsEnd s b g 2 page
    → (s1 : FileSystem) × (s2 : FileSystem) × (sys_close a s ≡ done (some 0, s1))
      × (sys_close b s1 ≡ done (some 0, s2))
      × PipeClosed g page a b s s1 s2
close_both g page a b s n ha hb =
    let t1 = close_end g s in
    let s1 = set_fd a none t1 in
    let s2 = set_fd b none (close_end g s1) in
    let (file, kept, fds) = one_end g 0 page s ha.file (omega arith) in
    let (free, freed, fds') = last_end g page s1 file in
    let other : (b == a) ≡ false = ground arith in
    let hb1 : IsEnd s1 b g 1 page = record {
      user = hb.user;
      small = hb.small;
      slot = rw other (ap (λ f. f b) fds ∙ hb.slot);
      inside = hb.inside;
      file = file;
    } in
    (
      s1,
      s2,
      end_lem a g 2 page s ha,
      end_lem b g 1 page s1 hb1,
      record {
        kept = kept;
        freed = freed ∙ ap (λ xs. page ∷ xs) kept;
        slot = free;
        fds = λ k.
            ap (λ f. if k == b then none else f k) fds'
            ∙ ap (λ f. if k == b then none else if k == a then none else f k) fds;
      },
    )
