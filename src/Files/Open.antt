-- ===== src/Files/Open.antt =====
-- `file_open` and `file_close` (sparrow/fs/file.c): what they do to the counts of the open inodes.
use sparrow_os.Common.{
  ℕ, ◌-◌, ◌^◌, ◌<◌, ◌≡◌, ◌≢◌, inl, inr, refl, sym, ap, subst, ◌∙◌, Bool, false, Option, none, some,
  arith, ◌==◌, if◌then◌else◌, Bool-cases, eq-true, eq_self,
}
use sparrow_os.LinkedList.View.{Distinct}
use sparrow_os.Inode.{OpenInodes, set_inode, find_inode, inode_close}
use sparrow_os.Inode.OpenList.{opens, opens_of, IsOpenList, find_inode-changed, numbers-changed}
use sparrow_os.Inode.Closes.{inode_close-ClosesOnce}
use sparrow_os.Files.{FileSystem, file_close}

-- Another write_deny for one inode leaves the counts and the list as they are.
module _ (o : OpenInodes) (p : ℕ) (deny : Bool) where
  abbrev pub denied : OpenInodes
  denied = set_inode p (record (o.inodes p) { write_deny = deny }) o

  counts_same : (q : ℕ) → (denied.inodes q).i_open_cnts ≡ (o.inodes q).i_open_cnts
  counts_same q = elim (Bool-cases (q == p)) [
    | inl same ↦ rw same (ap (λ x. (o.inodes x).i_open_cnts) (sym (eq-true q p same)))
    | inr other ↦ rw other refl
  ]

  opens_of-denied : (a : Option ℕ) → opens_of denied.inodes a ≡ opens_of o.inodes a
  opens_of-denied none = refl
  opens_of-denied (some q) = counts_same q

  pub opens-denied : (m : ℕ) → opens denied m ≡ opens o m
  opens-denied m =
      ap (opens_of denied.inodes) (
        find_inode-changed o.inodes p (record (o.inodes p) { write_deny = deny }) refl m
          o.open_inodes)
      ∙ opens_of-denied (find_inode o.inodes m o.open_inodes)

  pub find-denied :
      (m : ℕ) → find_inode denied.inodes m o.open_inodes ≡ find_inode o.inodes m o.open_inodes
  find-denied m =
      find_inode-changed o.inodes p (record (o.inodes p) { write_deny = deny }) refl m o.open_inodes

  pub denied-IsOpenList : IsOpenList o → IsOpenList denied
  denied-IsOpenList h = record {
    distinct =
        subst Distinct
          (sym (
            numbers-changed o.inodes p (record (o.inodes p) { write_deny = deny }) refl
              o.open_inodes))
          h.distinct;
    positive = λ q on. subst (λ n. 0 < n) (sym (counts_same q)) (h.positive q on);
  }

-- `file_close` of a file on an open inode: the counts go down at its number, and the slot is free.
pub record FileClosed (nr g : ℕ) (s s' : FileSystem) : Type 0 where
  pub counts :
      (m : ℕ)
      → opens s'.open_inodes m
        ≡ (if m == nr then opens s.open_inodes nr - 1 else opens s.open_inodes m)
  pub is_list : IsOpenList s'.open_inodes
  pub free : (s'.file_table g).fd_inode ≡ 0
  pub others : (k : ℕ) → k ≢ g → s'.file_table k ≡ s.file_table k
  pub fds : s'.fd_table ≡ s.fd_table

file_close_lem :
    (g : ℕ) (s : FileSystem)
    → (file_close g s).open_inodes
      ≡ inode_close (s.file_table g).fd_inode (denied s.open_inodes (s.file_table g).fd_inode false)
unfolding file_close
file_close_lem g s = refl

slots_after :
    (g : ℕ) (s : FileSystem)
    → (((file_close g s).file_table g).fd_inode ≡ 0)
      × ((k : ℕ) → k ≢ g → (file_close g s).file_table k ≡ s.file_table k)
      × ((file_close g s).fd_table ≡ s.fd_table)
unfolding file_close
slots_after g s =
    (rw (eq_self g) refl, λ k n. let other : (k == g) ≡ false = ground arith in rw other refl, refl)

-- `file_close` of a slot whose inode is open makes the number of the inode open once less and
-- every other number as often as before, frees the slot, and changes no other slot and no
-- descriptor.
pub file_close-FileClosed :
    (nr g : ℕ) (s : FileSystem)
    → IsOpenList s.open_inodes
    → find_inode s.open_inodes.inodes nr s.open_inodes.open_inodes ≡ some (s.file_table g).fd_inode
    → opens s.open_inodes nr < 2 ^ 32
    → FileClosed nr g s (file_close g s)
file_close-FileClosed nr g s h found small =
    let o = s.open_inodes in
    let p = (s.file_table g).fd_inode in
    let d = denied o p false in
    let there = find-denied o p false nr ∙ found in
    let own : opens o nr ≡ (o.inodes p).i_open_cnts = ap (opens_of o.inodes) found in
    let word : (d.inodes p).i_open_cnts < 2 ^ 32 =
      subst (λ n. n < 2 ^ 32) (own ∙ sym (counts_same o p false p)) small in
    let (c, list) = inode_close-ClosesOnce nr p d (denied-IsOpenList o p false h) there word in
    let (free, others, fds) = slots_after g s in
    let e = file_close_lem g s in
    record {
      counts = λ m.
          ap (λ x. opens x m) e
          ∙ c.counts m
          ∙ ap (λ n. if m == nr then n - 1 else opens d m) (opens-denied o p false nr)
          ∙ ap (λ n. if m == nr then opens o nr - 1 else n) (opens-denied o p false m);
      is_list = subst IsOpenList (sym e) c.is_list;
      free = free;
      others = others;
      fds = fds;
    }
