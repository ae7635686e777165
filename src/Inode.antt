-- ===== src/Inode.antt =====
-- sparrow/fs/inode.c: where an inode lies in the table of a partition, how it is written and
-- cleared there, and the list of the open inodes. The disk is its bytes, sector after sector, and
-- `ide_read` and `ide_write` copy whole sectors. An inode in memory is named by its address; the
-- addresses that `sys_malloc` gives, NULL as 0, are arguments of `inode_open`.
pub mod Table
pub mod Sync
pub mod OpenList
pub mod Recount
pub mod Leave
pub mod Opens
pub mod Closes
pub mod Tests
use sparrow_os.Common.{
  ℕ, zero, suc, ◌+◌, ◌-◌, ◌*◌, ◌/◌, ◌%◌, ◌^◌, ◌<◌, ◌≤◌, ◌≡◌, ◌≢◌, ◌⊎◌, inl, inr, refl, sym, ap,
  subst, ◌∙◌, Bool, true, false, not, ◌&&◌, ◌||◌, Option, none, some, List, [], ◌∷◌, ◌++◌, length,
  get_or, set, replicate, arith, leb, ltb, ◌==◌, if◌then◌else◌, add32, sub32, mul32, Outcome, done,
  panic, out_of_fuel, ◌>>=◌, Bool-cases, Option-cases, assert_then, or_panic, ltb→lt, lt→ltb,
  leb→le, eq-true, eq_self, and-split, holds_below, test_of_holds_below, length-append, length-set,
  get_or-set_self, get_or-set_ne,
}

-- `struct inode`; its `inode_tag` is its place in the list of open inodes.
pub record Inode : Type 0 where
  pub i_no : ℕ
  pub i_size : ℕ
  pub i_open_cnts : ℕ
  pub write_deny : Bool
  pub i_sectors : ℕ → ℕ

-- What `inode.c` uses of a partition and of its super block.
pub record Partition : Type 0 where
  pub start_lba : ℕ
  pub sec_cnt : ℕ
  pub inode_table_lba : ℕ

pub record InodePosition : Type 0 where
  pub two_sec : Bool
  pub sec_lba : ℕ
  pub off_size : ℕ

-- The size of a `struct inode`.
abbrev pub inode_size : ℕ
inode_size = 76

pub inode_locate : Partition → ℕ → Outcome InodePosition
inode_locate part inode_no =
    let off_size = mul32 inode_no inode_size in
    assert_then (ltb inode_no 4096) (
      done (record {
        two_sec = ltb (512 - off_size % 512) inode_size;
        sec_lba = add32 part.inode_table_lba (off_size / 512);
        off_size = off_size % 512;
      }))

-- `ide_read` and `ide_write` of `n` sectors.
abbrev pub ide_read : ℕ → (ℕ → ℕ) → ℕ → ℕ
ide_read lba disk k = disk (lba * 512 + k)

abbrev pub ide_write : ℕ → ℕ → (ℕ → ℕ) → (ℕ → ℕ) → ℕ → ℕ
ide_write lba n buf disk a =
    if leb (lba * 512) a && ltb a ((lba + n) * 512) then buf (a - lba * 512) else disk a

-- `memcpy` of an inode to `off` of a buffer.
abbrev pub put_inode : ℕ → (ℕ → ℕ) → (ℕ → ℕ) → ℕ → ℕ
put_inode off bytes buf k = if leb off k && ltb k (off + inode_size) then bytes (k - off) else buf k

-- The sectors of an inode are read, its bytes replaced, and the sectors written.
pub write_inode : InodePosition → (ℕ → ℕ) → (ℕ → ℕ) → ℕ → ℕ
write_inode pos bytes disk =
    let n = if pos.two_sec then 2 else 1 in
    ide_write pos.sec_lba n (put_inode pos.off_size bytes (ide_read pos.sec_lba disk)) disk

-- The words of a `struct inode` in memory, the links of its tag NULL.
pub inode_word : Inode → ℕ → ℕ
inode_word inode k =
    if k == 0
    then inode.i_no
    else if k == 1
    then inode.i_size
    else if k == 2
    then inode.i_open_cnts
    else if k == 3
    then if inode.write_deny then 1 else 0
    else if ltb k 17
    then inode.i_sectors (k - 4)
    else 0

-- Byte `k` of a `struct inode`, the low byte of a word first.
pub inode_byte : Inode → ℕ → ℕ
inode_byte inode k = inode_word inode (k / 4) / 256 ^ (k % 4) % 256

-- The test of `inode_sync` and `inode_delete` that the inode lies in the partition.
pub in_partition : Partition → InodePosition → Bool
in_partition part pos = leb pos.sec_lba (add32 part.start_lba part.sec_cnt)

-- The inode number is kept in a `uint8_t`.
pub inode_sync : Partition → Inode → (ℕ → ℕ) → Outcome (ℕ → ℕ)
inode_sync part inode disk = inode_locate part (inode.i_no % 256) >>= λ (pos : InodePosition).
    let pure_inode = record inode { i_open_cnts = 0; write_deny = false } in
    assert_then (in_partition part pos) (done (write_inode pos (inode_byte pure_inode) disk))

pub inode_delete : Partition → ℕ → (ℕ → ℕ) → Outcome (ℕ → ℕ)
inode_delete part inode_no disk = inode_locate part inode_no >>= λ (pos : InodePosition).
    assert_then (in_partition part pos) (done (write_inode pos (λ k. 0) disk))

-- The word at byte `at` of the disk.
pub disk_word : (ℕ → ℕ) → ℕ → ℕ
disk_word disk at =
    disk at + 256 * disk (at + 1) + 256 ^ 2 * disk (at + 2) + 256 ^ 3 * disk (at + 3)

-- `memcpy` of the bytes at `at` to a `struct inode`.
pub read_inode : (ℕ → ℕ) → ℕ → Inode
read_inode disk at = record {
  i_no = disk_word disk at;
  i_size = disk_word disk (at + 4);
  i_open_cnts = disk_word disk (at + 8);
  write_deny = not (disk_word disk (at + 12) == 0);
  i_sectors = λ k. disk_word disk (at + 16 + 4 * k);
}

pub inode_init : ℕ → Inode
inode_init inode_no = record {
  i_no = inode_no;
  i_size = 0;
  i_open_cnts = 0;
  write_deny = false;
  i_sectors = λ k. 0;
}

-- The inodes in memory, and the list of the open ones.
pub record OpenInodes : Type 0 where
  pub inodes : ℕ → Inode
  pub open_inodes : List ℕ

abbrev pub set_inode : ℕ → Inode → OpenInodes → OpenInodes
set_inode p inode s = record s { inodes = λ q. if q == p then inode else s.inodes q }

-- The walk over the open inodes.
pub find_inode : (ℕ → Inode) → ℕ → List ℕ → Option ℕ
find_inode inodes inode_no [] = none
find_inode inodes inode_no (p ∷ ps) =
    let rest = find_inode inodes inode_no ps in if (inodes p).i_no == inode_no then some p else rest

-- An inode that is not open is read through a buffer at `buf` to `addr`; `memcpy` and `sys_free`
-- have an ASSERT that neither is NULL.
pub load_inode : Partition → ℕ → ℕ → ℕ → (ℕ → ℕ) → OpenInodes → Outcome (ℕ × OpenInodes)
load_inode part inode_no addr buf disk s = inode_locate part inode_no >>= λ (pos : InodePosition).
    let inode_found = read_inode disk (pos.sec_lba * 512 + pos.off_size) in
    let s' = set_inode addr (record inode_found { i_open_cnts = 1 }) s in
    assert_then (not (addr == 0) && not (buf == 0))
      (done (addr, record s' { open_inodes = addr ∷ s.open_inodes }))

-- What `inode_open` does with the answer of the walk.
pub open_found : Partition → ℕ → ℕ → ℕ → (ℕ → ℕ) → OpenInodes → Option ℕ → Outcome (ℕ × OpenInodes)
open_found part inode_no addr buf disk s (some p) =
    let inode = s.inodes p in
    done (p, set_inode p (record inode { i_open_cnts = add32 inode.i_open_cnts 1 }) s)
open_found part inode_no addr buf disk s none = load_inode part inode_no addr buf disk s

pub inode_open : Partition → ℕ → ℕ → ℕ → (ℕ → ℕ) → OpenInodes → Outcome (ℕ × OpenInodes)
inode_open part inode_no addr buf disk s =
    open_found part inode_no addr buf disk s (find_inode s.inodes inode_no s.open_inodes)

-- `list_remove` of an element of the list.
abbrev pub without : ℕ → List ℕ → List ℕ
without p [] = []
without p (x ∷ xs) = if p == x then xs else x ∷ without p xs

-- The memory of an inode that is closed for the last time goes back to the kernel's heap.
pub inode_close : ℕ → OpenInodes → OpenInodes
inode_close p s =
    let inode = s.inodes p in
    let cnt = sub32 inode.i_open_cnts 1 in
    let s' = set_inode p (record inode { i_open_cnts = cnt }) s in
    if cnt == 0 then record s' { open_inodes = without p s.open_inodes } else s'
