-- ===== src/Inode/Opens.antt =====
-- `inode_open` of sparrow/fs/inode.c counts how often an inode is open.
use sparrow_os.Common.{
  ℕ, ◌+◌, ◌*◌, ◌^◌, ◌<◌, ◌≡◌, inl, inr, refl, sym, ap, subst, ◌∙◌, true, false, Option, none, some,
  ◌∷◌, arith, ◌==◌, if◌then◌else◌, add32, Outcome, done, Bool-cases, eq-true, eq_self, not, ◌&&◌,
}
use sparrow_os.LinkedList.View.{elem, ◌∉◌, Distinct}
use sparrow_os.Inode.{
  Inode, Partition, InodePosition, OpenInodes, set_inode, find_inode, load_inode, open_found,
  inode_open, inode_locate, read_inode,
}
use sparrow_os.Inode.Table.{slot, IsPartition, inode_locate-Located}
use sparrow_os.Inode.OpenList.{
  opens, opens_of, numbers, IsOpenList, find_inode-changed, find_inode-some, find_inode-none,
  find_inode-head, find_inode-tail, beside_other, numbers-beside, find_inode-beside, mem-differs,
}
use sparrow_os.Inode.Recount.{opens-recounted, recounted-IsOpenList}

-- What `inode_open` promises: the address that the list has for the number, open once more, and no
-- other number open more or less often.
abbrev pub OpensOnce : ℕ → OpenInodes → Outcome (ℕ × OpenInodes) → Type 0
OpensOnce nr s o =
    (p : ℕ) × (s' : OpenInodes) × (o ≡ done (p, s'))
    × (find_inode s'.inodes nr s'.open_inodes ≡ some p)
    × ((m : ℕ) → opens s' m ≡ (if m == nr then opens s nr + 1 else opens s m))
    × IsOpenList s'

open_again :
    (part : Partition) (nr addr buf p : ℕ) (disk : ℕ → ℕ) (s : OpenInodes)
    → IsOpenList s
    → opens s nr + 1 < 2 ^ 32
    → find_inode s.inodes nr s.open_inodes ≡ some p
    → OpensOnce nr s (open_found part nr addr buf disk s (some p))
unfolding open_found
open_again part nr addr buf p disk s h small f =
    let own : opens s nr ≡ (s.inodes p).i_open_cnts = ap (opens_of s.inodes) f in
    let n = add32 (s.inodes p).i_open_cnts 1 in
    let up : n ≡ opens s nr + 1 = omega arith in
    let inode : Inode = record (s.inodes p) { i_open_cnts = n } in
    (
      p,
      set_inode p inode s,
      refl,
      find_inode-changed s.inodes p inode refl nr s.open_inodes ∙ f,
      λ m. opens-recounted s nr p n f m ∙ ap (λ k. if m == nr then k else opens s m) up,
      recounted-IsOpenList s nr p n f h (omega arith),
    )

-- The inode is read from the disk to `addr`.
module _ (nr addr : ℕ) (inode : Inode) (s : OpenInodes) where
  abbrev loaded : OpenInodes
  loaded = record (set_inode addr inode s) { open_inodes = addr ∷ s.open_inodes }

  loaded_here : loaded.inodes addr ≡ inode
  loaded_here = rw (eq_self addr) refl

  module _ (number : inode.i_no ≡ nr) (fresh : addr ∉ s.open_inodes) where
    loaded_number : ((loaded.inodes addr).i_no == nr) ≡ true
    loaded_number = ap (λ x. x.i_no == nr) loaded_here ∙ ap (λ k. k == nr) number ∙ eq_self nr

    find_inode-loaded : find_inode loaded.inodes nr loaded.open_inodes ≡ some addr
    find_inode-loaded = find_inode-head loaded.inodes nr addr s.open_inodes loaded_number

    opens_beside :
        (o : Option ℕ) (m : ℕ)
        → find_inode s.inodes m s.open_inodes ≡ o
        → opens_of loaded.inodes o ≡ opens_of s.inodes o
    opens_beside none m f = refl
    opens_beside (some q) m f =
        let on = (find_inode-some s.inodes m q s.open_inodes f).1 in
        ap (λ x. x.i_open_cnts)
          (beside_other s.inodes addr inode q (mem-differs q addr s.open_inodes on fresh))

    opens-loaded :
        inode.i_open_cnts ≡ 1
        → opens s nr ≡ 0
        → (m : ℕ) → opens loaded m ≡ (if m == nr then opens s nr + 1 else opens s m)
    opens-loaded one closed m = elim (Bool-cases (m == nr)) [
      | inl same ↦
          let count : inode.i_open_cnts ≡ opens s nr + 1 = omega arith in
          ap (opens loaded) (eq-true m nr same)
          ∙ ap (opens_of loaded.inodes) find_inode-loaded
          ∙ ap (λ x. x.i_open_cnts) loaded_here
          ∙ count
          ∙ rw same refl
      | inr other ↦
          let skip : ((loaded.inodes addr).i_no == m) ≡ false =
            ap (λ x. x.i_no == m) loaded_here ∙ ap (λ k. k == m) number ∙ ground arith in
          ap (opens_of loaded.inodes) (
            find_inode-tail loaded.inodes m addr s.open_inodes skip
            ∙ find_inode-beside s.inodes addr inode m s.open_inodes fresh)
          ∙ opens_beside (find_inode s.inodes m s.open_inodes) m refl
          ∙ rw other refl
    ]

    loaded-IsOpenList :
        inode.i_open_cnts ≡ 1
        → find_inode s.inodes nr s.open_inodes ≡ none
        → IsOpenList s
        → IsOpenList loaded
    loaded-IsOpenList one missing h =
        let rest = numbers-beside s.inodes addr inode s.open_inodes fresh in
        let out : nr ∉ numbers s.inodes s.open_inodes =
          find_inode-none s.inodes nr s.open_inodes missing in
        let head : (loaded.inodes addr).i_no ≡ nr = ap (λ x. x.i_no) loaded_here ∙ number in
        record {
          distinct = (
            subst (λ k. elem k (numbers loaded.inodes s.open_inodes) ≡ false) (sym head)
                (subst (λ ks. elem nr ks ≡ false) (sym rest) out),
            subst Distinct (sym rest) h.distinct,
          );
          positive = λ q on. elim (Bool-cases (q == addr)) [
            | inl same ↦ rw same (omega arith)
            | inr other ↦ rw other (h.positive q (ground arith))
          ];
        }

load_inode_lem :
    (part : Partition) (nr addr buf : ℕ) (disk : ℕ → ℕ) (s : OpenInodes) (pos : InodePosition)
    → inode_locate part nr ≡ done pos
    → pos.sec_lba * 512 + pos.off_size ≡ slot part nr
    → 0 < addr
    → 0 < buf
    → load_inode part nr addr buf disk s
      ≡ done (addr, loaded nr addr (record (read_inode disk (slot part nr)) { i_open_cnts = 1 }) s)
unfolding load_inode
load_inode_lem part nr addr buf disk s pos e at at_addr at_buf =
    let test : (not (addr == 0) && not (buf == 0)) ≡ true = ground arith in rw (e, at, test) refl

open_first :
    (part : Partition) (nr addr buf : ℕ) (disk : ℕ → ℕ) (s : OpenInodes)
    → IsPartition part
    → nr < 4096
    → IsOpenList s
    → 0 < addr
    → 0 < buf
    → addr ∉ s.open_inodes
    → (read_inode disk (slot part nr)).i_no ≡ nr
    → find_inode s.inodes nr s.open_inodes ≡ none
    → OpensOnce nr s (open_found part nr addr buf disk s none)
unfolding open_found
open_first part nr addr buf disk s hp small h at_addr at_buf fresh number missing =
    let (pos, e, l, t) = inode_locate-Located part nr hp small in
    let inode : Inode = record (read_inode disk (slot part nr)) { i_open_cnts = 1 } in
    let closed : opens s nr ≡ 0 = ap (opens_of s.inodes) missing in
    (
      addr,
      loaded nr addr inode s,
      load_inode_lem part nr addr buf disk s pos e l.at at_addr at_buf,
      find_inode-loaded nr addr inode s number fresh,
      opens-loaded nr addr inode s number fresh refl closed,
      loaded-IsOpenList nr addr inode s number fresh refl missing h,
    )

open_either :
    (part : Partition) (nr addr buf : ℕ) (disk : ℕ → ℕ) (s : OpenInodes) (o : Option ℕ)
    → IsPartition part
    → nr < 4096
    → IsOpenList s
    → opens s nr + 1 < 2 ^ 32
    → 0 < addr
    → 0 < buf
    → addr ∉ s.open_inodes
    → (read_inode disk (slot part nr)).i_no ≡ nr
    → find_inode s.inodes nr s.open_inodes ≡ o
    → OpensOnce nr s (open_found part nr addr buf disk s o)
open_either part nr addr buf disk s none hp small h room at_addr at_buf fresh number f =
    open_first part nr addr buf disk s hp small h at_addr at_buf fresh number f
open_either part nr addr buf disk s (some p) hp small h room at_addr at_buf fresh number f =
    open_again part nr addr buf p disk s h room f

-- On a partition that holds its inode table, and from a list of open inodes on which no number
-- stands under two addresses and every inode is open at least once, for an inode number below 4096
-- that stands in its slot on the disk and whose count does not overflow, and where `sys_malloc`
-- gives memory, which no open inode has, `inode_open` always ends. The number is then open once
-- more than before, under the address that the call returns, and every other number as often as
-- before; the list is again one on which no number stands under two addresses and every inode is
-- open at least once.
pub inode_open-OpensOnce :
    (part : Partition) (nr addr buf : ℕ) (disk : ℕ → ℕ) (s : OpenInodes)
    → IsPartition part
    → nr < 4096
    → IsOpenList s
    → opens s nr + 1 < 2 ^ 32
    → 0 < addr
    → 0 < buf
    → addr ∉ s.open_inodes
    → (read_inode disk (slot part nr)).i_no ≡ nr
    → OpensOnce nr s (inode_open part nr addr buf disk s)
unfolding inode_open
inode_open-OpensOnce part nr addr buf disk s hp small h room at_addr at_buf fresh number =
    open_either part nr addr buf disk s (find_inode s.inodes nr s.open_inodes) hp small h room
      at_addr at_buf fresh number refl
