-- ===== src/Files/Opened.antt =====
-- `file_open` of sparrow/fs/file.c, and `file_close` after it.
use sparrow_os.Common.{
  ℕ, ◌+◌, ◌-◌, ◌^◌, ◌<◌, ◌≤◌, ◌≡◌, ◌≢◌, inl, inr, refl, sym, ap, subst, ◌∙◌, true, Option, none,
  some, arith, ◌==◌, if◌then◌else◌, done, Bool-cases, eq-true, eq_self,
}
use sparrow_os.LinkedList.View.{◌∉◌}
use sparrow_os.Inode.{Partition, OpenInodes, find_inode, inode_open, read_inode}
use sparrow_os.Inode.Table.{slot, IsPartition}
use sparrow_os.Inode.OpenList.{opens, IsOpenList}
use sparrow_os.Inode.Opens.{inode_open-OpensOnce}
use sparrow_os.Files.{
  FileSystem, set_file, set_fd, get_free_slot_in_global, writes, claim_file, open_in, file_open,
  file_close,
}
use sparrow_os.Files.Slots.{Installs, pcb_fd_install-Installs}
use sparrow_os.Files.Open.{
  denied, opens-denied, find-denied, denied-IsOpenList, file_close-FileClosed,
}

-- What `file_open` of inode `nr` did, with slot `g` free before: the inode is open once more; a
-- descriptor that it returns is that of the slot, and closing the slot restores every count.
pub record FileOpened (nr g : ℕ) (s : FileSystem) (r : Option ℕ) (s' : FileSystem) : Type 0 where
  pub counts :
      (m : ℕ)
      → opens s'.open_inodes m
        ≡ (if m == nr then opens s.open_inodes nr + 1 else opens s.open_inodes m)
  pub is_list : IsOpenList s'.open_inodes
  pub installed : (fd : ℕ) → r ≡ some fd → (s'.fd_table fd ≡ some g) × (3 ≤ fd) × (fd < 8)
  pub closed_again :
      (fd : ℕ)
      → r ≡ some fd
      → (m : ℕ) → opens (file_close g s').open_inodes m ≡ opens s.open_inodes m

-- The state before `pcb_fd_install`, with the file in its slot.
record Ready (nr g : ℕ) (s t : FileSystem) : Type 0 where
  counts :
      (m : ℕ)
      → opens t.open_inodes m
        ≡ (if m == nr then opens s.open_inodes nr + 1 else opens s.open_inodes m)
  is_list : IsOpenList t.open_inodes
  found :
      find_inode t.open_inodes.inodes nr t.open_inodes.open_inodes ≡ some (t.file_table g).fd_inode

pub none-ne-some : (fd : ℕ) → none ≢ some fd
none-ne-some fd e = ground arith

pub some-injective : (a b : ℕ) → some a ≡ some b → a ≡ b
some-injective a b e = ground arith

closed_counts :
    (nr g fd : ℕ) (s t : FileSystem)
    → Ready nr g s t
    → opens s.open_inodes nr + 1 < 2 ^ 32
    → (m : ℕ) → opens (file_close g (set_fd fd (some g) t)).open_inodes m ≡ opens s.open_inodes m
closed_counts nr g fd s t h small m =
    let own : opens t.open_inodes nr ≡ opens s.open_inodes nr + 1 =
      h.counts nr ∙ rw (eq_self nr) refl in
    let word : opens t.open_inodes nr < 2 ^ 32 = omega arith in
    let c = file_close-FileClosed nr g (set_fd fd (some g) t) h.is_list h.found word in
    c.counts m ∙ elim (Bool-cases (m == nr)) [
      | inl same ↦
          let back : opens t.open_inodes nr - 1 ≡ opens s.open_inodes nr = omega arith in
          rw same (back ∙ ap (opens s.open_inodes) (sym (eq-true m nr same)))
      | inr other ↦ rw other (h.counts m ∙ rw other refl)
    ]

Ready-FileOpened :
    (nr g : ℕ) (s t : FileSystem) (r : Option ℕ) (s' : FileSystem)
    → Ready nr g s t
    → opens s.open_inodes nr + 1 < 2 ^ 32
    → Installs g t (r, s')
    → FileOpened nr g s r s'
Ready-FileOpened nr g s t none s' h small (same, full) = record {
  counts = λ m. ap (λ x. opens x.open_inodes m) same ∙ h.counts m;
  is_list = subst (λ x. IsOpenList x.open_inodes) (sym same) h.is_list;
  installed = λ fd e. absurd (none-ne-some fd e);
  closed_again = λ fd e. absurd (none-ne-some fd e);
}
Ready-FileOpened nr g s t (some k) s' h small (same, low, high, free, first) = record {
  counts = λ m. ap (λ x. opens x.open_inodes m) same ∙ h.counts m;
  is_list = subst (λ x. IsOpenList x.open_inodes) (sym same) h.is_list;
  installed = λ fd e.
      let at = some-injective k fd e in
      (
        ap (λ x. x.fd_table fd) same
            ∙ ap (λ q. (set_fd q (some g) t).fd_table fd) at
            ∙ rw (eq_self fd) refl,
        omega arith,
        omega arith,
      );
  closed_again = λ fd e m.
      ap (λ x. opens (file_close g x).open_inodes m) same ∙ closed_counts nr g k s t h small m;
}

-- After `inode_open`: the inode `p` is open once more in `o`.
module _ (nr g p flag : ℕ) (s : FileSystem) (o : OpenInodes) where
  abbrev opened : FileSystem
  opened =
      set_file g (record { fd_pos = 0; fd_flag = flag; fd_inode = p })
        (record s { open_inodes = o })

  abbrev claimed : FileSystem
  claimed = record opened { open_inodes = denied o p true }

  slot_holds : (opened.file_table g).fd_inode ≡ p
  slot_holds = rw (eq_self g) refl

  module _ (found : find_inode o.inodes nr o.open_inodes ≡ some p)
      (up : (m : ℕ)
        → opens o m ≡ (if m == nr then opens s.open_inodes nr + 1 else opens s.open_inodes m))
      (list : IsOpenList o) (small : opens s.open_inodes nr + 1 < 2 ^ 32) where
    opened-Ready : Ready nr g s opened
    opened-Ready = record { counts = up; is_list = list; found = found ∙ ap some (sym slot_holds) }

    claimed-Ready : Ready nr g s claimed
    claimed-Ready = record {
      counts = λ m. opens-denied o p true m ∙ up m;
      is_list = denied-IsOpenList o p true list;
      found = find-denied o p true nr ∙ found ∙ ap some (sym slot_holds);
    }

    -- The file is being written, and the slot is given up.
    refused : (t : FileSystem) → t.open_inodes ≡ o → FileOpened nr g s none t
    refused t same = record {
      counts = λ m. ap (λ x. opens x m) same ∙ up m;
      is_list = subst IsOpenList (sym same) list;
      installed = λ fd e. absurd (none-ne-some fd e);
      closed_again = λ fd e. absurd (none-ne-some fd e);
    }

    claim_file-FileOpened :
        let r = claim_file g p flag (record s { open_inodes = o }) in FileOpened nr g s r.0 r.1
    unfolding claim_file
    claim_file-FileOpened = elim (Bool-cases (writes flag)) [
      | inr reads ↦
          rw reads (
            Ready-FileOpened nr g s opened _ _ opened-Ready small
              (pcb_fd_install-Installs g opened))
      | inl writing ↦ elim (Bool-cases (o.inodes p).write_deny) [
        | inl busy ↦ rw (writing, busy) (refused _ refl)
        | inr idle ↦
            rw (writing, idle)
              (Ready-FileOpened nr g s claimed _ _ claimed-Ready small
                (pcb_fd_install-Installs g claimed))
      ]
    ]

file_open_lem :
    (part : Partition) (nr addr buf flag g p : ℕ) (disk : ℕ → ℕ) (s : FileSystem) (o : OpenInodes)
    → get_free_slot_in_global s ≡ some g
    → inode_open part nr addr buf disk s.open_inodes ≡ done (p, o)
    → file_open part nr addr buf disk flag s
      ≡ done (claim_file g p flag (record s { open_inodes = o }))
unfolding file_open open_in
file_open_lem part nr addr buf flag g p disk s o e f = rw (e, f) refl

-- On a partition that holds its inode table, and from a list of open inodes on which no number
-- stands under two addresses and every inode is open at least once, for an inode number below 4096
-- that stands in its slot on the disk and whose count does not overflow, where `sys_malloc` gives
-- memory, which no open inode has, and slot `g` is the first free one, `file_open` always ends.
-- Whether it returns a descriptor or -1, the number is open once more and every other number as
-- often as before, on such a list; a descriptor that it returns is from 3 to 7 and that of slot
-- `g`, and a `file_close` of slot `g` after it restores the count of every number.
pub file_open-FileOpened :
    (part : Partition) (nr addr buf flag g : ℕ) (disk : ℕ → ℕ) (s : FileSystem)
    → IsPartition part
    → nr < 4096
    → IsOpenList s.open_inodes
    → opens s.open_inodes nr + 1 < 2 ^ 32
    → 0 < addr
    → 0 < buf
    → addr ∉ s.open_inodes.open_inodes
    → (read_inode disk (slot part nr)).i_no ≡ nr
    → get_free_slot_in_global s ≡ some g
    → (r : Option ℕ) × (s' : FileSystem) × (file_open part nr addr buf disk flag s ≡ done (r, s'))
      × FileOpened nr g s r s'
file_open-FileOpened part nr addr buf flag g disk s hp low list small at_addr at_buf fresh number
      e =
    let (p, o, f, found, up, list') =
      inode_open-OpensOnce part nr addr buf disk s.open_inodes hp low list small at_addr at_buf
        fresh number in
    let r = claim_file g p flag (record s { open_inodes = o }) in
    (
      r.0,
      r.1,
      file_open_lem part nr addr buf flag g p disk s o e f,
      claim_file-FileOpened nr g p flag s o found up list' small,
    )
