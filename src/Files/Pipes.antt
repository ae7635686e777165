-- ===== src/Files/Pipes.antt =====
-- `sys_pipe` (sparrow/shell/pipe.c), and `sys_close` of both its descriptors.
use sparrow_os.Common.{
  ℕ, ◌<◌, ◌≤◌, ◌≡◌, ◌≢◌, inl, inr, refl, sym, ap, subst, ◌∙◌, true, false, Option, none, some, ◌∷◌,
  arith, ◌==◌, if◌then◌else◌, done, Bool-cases, eq-true, eq_self,
}
use sparrow_os.Files.Slots.{
  Installs, FirstFree, slot_is_free, fd_is_free, pcb_fd_install-Installs,
  get_free_slot_in_global-FirstFree,
}
use sparrow_os.Files.Opened.{none-ne-some, some-injective}
use sparrow_os.Files.{
  FileSystem, set_file, set_fd, sys_close, sys_pipe, is_free, get_free_slot_in_global,
  pcb_fd_install,
}
use sparrow_os.Files.PipeEnds.{IsEnd, close_both}

-- What `sys_pipe` leaves where it gives two descriptors.
pipe_lem :
    (page g : ℕ) (s : FileSystem)
    → 0 < page
    → get_free_slot_in_global s ≡ some g
    → let piped = set_file g (record { fd_pos = 2; fd_flag = 0xFFFF; fd_inode = page }) s in
      let r1 = pcb_fd_install (some g) piped in
      let r2 = pcb_fd_install (some g) r1.1 in sys_pipe page s ≡ (some (r1.0, r2.0), r2.1)
unfolding sys_pipe
pipe_lem page g s pos e = let has : (page == 0) ≡ false = ground arith in rw (e, has) refl

-- Two ends of the pipe in slot `g`, and the descriptors that were free before.
abbrev pub TwoEnds : ℕ → ℕ → ℕ → ℕ → FileSystem → FileSystem → Type 0
TwoEnds g page a b p s =
    (a ≢ b)
    × IsEnd s a g 2 page
    × IsEnd s b g 2 page
    × (s.freed ≡ p.freed)
    × ((k : ℕ) → (if k == b then none else if k == a then none else s.fd_table k) ≡ p.fd_table k)

free-none : (o : Option ℕ) → is_free o ≡ true → o ≡ none
free-none none h = refl
free-none (some g) h = absurd (ground arith)

TwoEnds-set_fd :
    (g page a b : ℕ) (p : FileSystem)
    → g < 32
    → p.file_table g ≡ record { fd_pos = 2; fd_flag = 0xFFFF; fd_inode = page }
    → 3 ≤ a
    → a < 8
    → 3 ≤ b
    → b < 8
    → fd_is_free p a ≡ true
    → fd_is_free (set_fd a (some g) p) b ≡ true
    → TwoEnds g page a b p (set_fd b (some g) (set_fd a (some g) p))
TwoEnds-set_fd g page a b p hg file la ha lb hb fa fb =
    let differ : (b == a) ≡ false = elim (Bool-cases (b == a)) [
      | inr other ↦ other
      | inl same ↦
          let taken : fd_is_free (set_fd a (some g) p) b ≡ false = rw same refl in
          absurd (ground arith)
    ] in
    let differ' : (a == b) ≡ false = ground arith in
    let fb' : fd_is_free p b ≡ true = rw differ at fb in
    (
      λ e. ground arith,
      record {
        user = omega arith;
        small = ha;
        slot = rw (differ', eq_self a) refl;
        inside = hg;
        file = file;
      },
      record {
        user = omega arith;
        small = hb;
        slot = rw (eq_self b) refl;
        inside = hg;
        file = file;
      },
      refl,
      λ k. elim (Bool-cases (k == b)) [
        | inl at ↦ rw at (sym (ap p.fd_table (eq-true k b at) ∙ free-none (p.fd_table b) fb'))
        | inr off ↦ elim (Bool-cases (k == a)) [
          | inl at ↦
              rw (off, at) (sym (ap p.fd_table (eq-true k a at) ∙ free-none (p.fd_table a) fa))
          | inr away ↦ rw (off, away) refl
        ]
      ],
    )

-- The parts of an answer.
answer : Option ℕ × Option ℕ → Option (Option ℕ × Option ℕ) → Option ℕ × Option ℕ
answer d none = d
answer d (some q) = q

some-pair :
    (a b c d : Option ℕ)
    → Path (Option (Option ℕ × Option ℕ)) (some (a, b)) (some (c, d))
    → (a ≡ c) × (b ≡ d)
unfolding answer
some-pair a b c d e = let q = ap (answer (a, b)) e in (ap (λ t. t.0) q, ap (λ t. t.1) q)

-- Two installs of slot `g` that both give a descriptor.
two_fds :
    (g page a b : ℕ) (p s' : FileSystem) (r1 r2 : Option ℕ × FileSystem)
    → g < 32
    → p.file_table g ≡ record { fd_pos = 2; fd_flag = 0xFFFF; fd_inode = page }
    → Installs g p r1
    → Installs g r1.1 r2
    → r1.0 ≡ some a
    → r2.0 ≡ some b
    → r2.1 ≡ s'
    → TwoEnds g page a b p s'
two_fds g page a b p s' (none, s1) r2 hg f i j ea eb es = absurd (none-ne-some a ea)
two_fds g page a b p s' (some x, s1) (none, s2) hg f i j ea eb es = absurd (none-ne-some b eb)
two_fds g page a b p s' (some x, s1) (some y, s2) hg f (e1, l1, h1, f1, n1) (e2, l2, h2, f2, n2) ea
      eb es =
    let free = subst (λ s. fd_is_free s y ≡ true) e1 f2 in
    let ends = TwoEnds-set_fd g page x y p hg f l1 h1 l2 h2 f1 free in
    let whole : set_fd y (some g) (set_fd x (some g) p) ≡ s' =
      ap (set_fd y (some g)) (sym e1) ∙ sym e2 ∙ es in
    subst (λ c. TwoEnds g page c b p s') (some-injective x a ea)
      (subst (λ c. TwoEnds g page x c p s') (some-injective y b eb)
        (subst (λ s. TwoEnds g page x y p s) whole ends))

-- What follows `sys_pipe` where it gave the descriptors `a` and `b`: both can be closed, the first
-- close gives nothing back, and the second gives back the page, frees the slot, and leaves the
-- descriptors as they were before the pipe.
pub record Piped (page g a b : ℕ) (s s' : FileSystem) : Type 0 where
  pub after_one : FileSystem
  pub after_both : FileSystem
  pub first : sys_close a s' ≡ done (some 0, after_one)
  pub second : sys_close b after_one ≡ done (some 0, after_both)
  pub not_yet : after_one.freed ≡ s.freed
  pub freed : after_both.freed ≡ page ∷ s.freed
  pub slot : (after_both.file_table g).fd_inode ≡ 0
  pub fds : (k : ℕ) → after_both.fd_table k ≡ s.fd_table k

slot_inside : (s : FileSystem) (g : ℕ) → FirstFree (slot_is_free s) 29 3 (some g) → g < 32
slot_inside s g (low, high, free, first) = omega arith

TwoEnds-Piped :
    (page g a b : ℕ) (s p s' : FileSystem)
    → p.fd_table ≡ s.fd_table
    → p.freed ≡ s.freed
    → TwoEnds g page a b p s'
    → Piped page g a b s s'
TwoEnds-Piped page g a b s p s' same freed (n, ha, hb, kept, fds) =
    let (s1, s2, e1, e2, c) = close_both g page a b s' n ha hb in
    record {
      after_one = s1;
      after_both = s2;
      first = e1;
      second = e2;
      not_yet = c.kept ∙ kept ∙ freed;
      freed = c.freed ∙ ap (λ xs. page ∷ xs) (kept ∙ freed);
      slot = c.slot;
      fds = λ k. c.fds k ∙ fds k ∙ ap (λ f. f k) same;
    }

-- Where slot `g` is the first free one and `page` is a page, and `sys_pipe` gives the descriptors
-- `a` and `b`, `sys_close` of `a` and then of `b` both succeed: the page is given back by the second
-- and not by the first, the slot is free again, and every descriptor is as before the pipe.
pub sys_close-sys_pipe :
    (page g a b : ℕ) (s s' : FileSystem)
    → 0 < page
    → get_free_slot_in_global s ≡ some g
    → sys_pipe page s ≡ (some (some a, some b), s')
    → Piped page g a b s s'
sys_close-sys_pipe page g a b s s' pos slot e =
    let piped = set_file g (record { fd_pos = 2; fd_flag = 0xFFFF; fd_inode = page }) s in
    let r1 = pcb_fd_install (some g) piped in
    let r2 = pcb_fd_install (some g) r1.1 in
    let got : Path (Option (Option ℕ × Option ℕ) × FileSystem) (some (r1.0, r2.0), r2.1)
        (some (some a, some b), s') =
      sym (pipe_lem page g s pos slot) ∙ e in
    let pair = some-pair r1.0 r2.0 (some a) (some b) (ap (λ t. t.0) got) in
    let inside =
      slot_inside s g
        (subst (FirstFree (slot_is_free s) 29 3) slot (get_free_slot_in_global-FirstFree s)) in
    TwoEnds-Piped page g a b s piped s' refl refl (
      two_fds g page a b piped s' r1 r2 inside (rw (eq_self g) refl)
        (pcb_fd_install-Installs g piped) (pcb_fd_install-Installs g r1.1) pair.0 pair.1
        (ap (λ t. t.1) got))
