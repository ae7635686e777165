-- ===== src/Inode/Sync.antt =====
-- `inode_sync` and `inode_delete` of sparrow/fs/inode.c, and what is read back.
use sparrow_os.Common.{
  ℕ, ◌+◌, ◌-◌, ◌*◌, ◌/◌, ◌%◌, ◌^◌, ◌<◌, ◌≡◌, ◌≢◌, refl, sym, ap, ◌∙◌, true, false, ◌&&◌, arith, leb,
  ltb, done,
}
use sparrow_os.Inode.{
  Inode, Partition, InodePosition, inode_locate, write_inode, inode_word, inode_byte, in_partition,
  inode_sync, inode_delete, disk_word, read_inode,
}
use sparrow_os.Inode.Table.{slot, IsPartition, Replaced, inode_locate-Located, write_inode-Replaced}

-- An inode whose fields are words.
pub record IsInode (inode : Inode) : Type 0 where
  pub nr : inode.i_no < 2 ^ 32
  pub size : inode.i_size < 2 ^ 32
  pub sectors : (k : ℕ) → inode.i_sectors k < 2 ^ 32

-- What the disk holds of an inode.
abbrev pub pure : Inode → Inode
pure inode = record inode { i_open_cnts = 0; write_deny = false }

inode_sync_lem :
    (part : Partition) (inode : Inode) (disk : ℕ → ℕ) (pos : InodePosition)
    → inode_locate part (inode.i_no % 256) ≡ done pos
    → in_partition part pos ≡ true
    → inode_sync part inode disk ≡ done (write_inode pos (inode_byte (pure inode)) disk)
unfolding inode_sync
inode_sync_lem part inode disk pos e t = rw (e, t) refl

inode_delete_lem :
    (part : Partition) (nr : ℕ) (disk : ℕ → ℕ) (pos : InodePosition)
    → inode_locate part nr ≡ done pos
    → in_partition part pos ≡ true
    → inode_delete part nr disk ≡ done (write_inode pos (λ k. 0) disk)
unfolding inode_delete
inode_delete_lem part nr disk pos e t = rw (e, t) refl

word_lt : (inode : Inode) (k : ℕ) → IsInode inode → inode_word (pure inode) k < 2 ^ 32
unfolding inode_word
word_lt inode k h = ground (arith, h.nr, h.size, h.sectors (k - 4))

-- The four bytes of a word, put together again.
bytes_of_word :
    (w : ℕ)
    → w < 2 ^ 32
    → w / 256 ^ 0 % 256
        + 256 * (w / 256 ^ 1 % 256)
        + 256 ^ 2 * (w / 256 ^ 2 % 256)
        + 256 ^ 3 * (w / 256 ^ 3 % 256)
      ≡ w
bytes_of_word w h = omega arith

byte_at :
    (part : Partition) (nr : ℕ) (inode : Inode) (disk disk' : ℕ → ℕ)
    → Replaced part nr (inode_byte inode) disk disk'
    → (k j : ℕ) → k < 19
    → j < 4
    → disk' (slot part nr + 4 * k + j) ≡ inode_word inode k / 256 ^ j % 256
unfolding inode_byte
byte_at part nr inode disk disk' r k j hk hj =
    let inside : (leb (slot part nr) (slot part nr + 4 * k + j)
          && ltb (slot part nr + 4 * k + j) (slot part nr + 76))
        ≡ true =
      ground arith in
    let off : slot part nr + 4 * k + j - slot part nr ≡ 4 * k + j = omega arith in
    let word : (4 * k + j) / 4 ≡ k = omega arith in
    let byte : (4 * k + j) % 4 ≡ j = omega arith in
    r (slot part nr + 4 * k + j) ∙ rw (inside, off, word, byte) refl

disk_word-inode_word :
    (part : Partition) (nr : ℕ) (inode : Inode) (disk disk' : ℕ → ℕ)
    → Replaced part nr (inode_byte inode) disk disk'
    → (k : ℕ) → k < 19
    → inode_word inode k < 2 ^ 32
    → disk_word disk' (slot part nr + 4 * k) ≡ inode_word inode k
unfolding disk_word
disk_word-inode_word part nr inode disk disk' r k h w =
    let zero_at : disk' (slot part nr + 4 * k) ≡ inode_word inode k / 256 ^ 0 % 256 =
      let e : slot part nr + 4 * k + 0 ≡ slot part nr + 4 * k = omega arith in
      ap disk' (sym e) ∙ byte_at part nr inode disk disk' r k 0 h (omega arith) in
    let b1 = byte_at part nr inode disk disk' r k 1 h (omega arith) in
    let b2 = byte_at part nr inode disk disk' r k 2 h (omega arith) in
    let b3 = byte_at part nr inode disk disk' r k 3 h (omega arith) in
    rw (zero_at, b1, b2, b3) (bytes_of_word (inode_word inode k) w)

-- What is read back of an inode that was written.
pub record ReadBack (inode read : Inode) : Type 0 where
  pub i_no : read.i_no ≡ inode.i_no
  pub i_size : read.i_size ≡ inode.i_size
  pub i_open_cnts : read.i_open_cnts ≡ 0
  pub write_deny : read.write_deny ≡ false
  pub i_sectors : (k : ℕ) → k < 13 → read.i_sectors k ≡ inode.i_sectors k

-- The bytes of the other inodes of the table stay.
abbrev pub OthersKept : Partition → ℕ → (ℕ → ℕ) → (ℕ → ℕ) → Type 0
OthersKept part nr disk disk' =
    (other k : ℕ) → other ≢ nr → k < 76 → disk' (slot part other + k) ≡ disk (slot part other + k)

Replaced-OthersKept :
    (part : Partition) (nr : ℕ) (bytes disk disk' : ℕ → ℕ)
    → Replaced part nr bytes disk disk'
    → OthersKept part nr disk disk'
Replaced-OthersKept part nr bytes disk disk' r other k n h =
    let outside : (leb (slot part nr) (slot part other + k)
          && ltb (slot part other + k) (slot part nr + 76))
        ≡ false =
      ground arith in
    r (slot part other + k) ∙ rw outside refl

sector_word : (inode : Inode) (k : ℕ) → k < 13 → inode_word (pure inode) (k + 4) ≡ inode.i_sectors k
unfolding inode_word
sector_word inode k h = ground arith

Replaced-ReadBack :
    (part : Partition) (nr : ℕ) (inode : Inode) (disk disk' : ℕ → ℕ)
    → IsInode inode
    → Replaced part nr (inode_byte (pure inode)) disk disk'
    → ReadBack inode (read_inode disk' (slot part nr))
unfolding read_inode inode_word
Replaced-ReadBack part nr inode disk disk' h r =
    let word = λ (k : ℕ) (l : k < 19).
      disk_word-inode_word part nr (pure inode) disk disk' r k l (word_lt inode k h) in
    let first : slot part nr + 4 * 0 ≡ slot part nr = omega arith in
    let deny : disk_word disk' (slot part nr + 12) ≡ 0 = word 3 (omega arith) in
    record {
      i_no = ap (disk_word disk') (sym first) ∙ word 0 (omega arith);
      i_size = word 1 (omega arith);
      i_open_cnts = word 2 (omega arith);
      write_deny = rw deny refl;
      i_sectors = λ k l.
          let e : slot part nr + 16 + 4 * k ≡ slot part nr + 4 * (k + 4) = omega arith in
          ap (disk_word disk') e ∙ word (k + 4) (omega arith) ∙ sector_word inode k l;
    }

-- On a partition that holds its inode table, for an inode whose fields are words, `inode_sync`
-- always ends. It writes the inode to the slot with the low 8 bits of its number, whether the slot
-- crosses a sector or not: read from there, the number, the size and the 13 block addresses are
-- those of the inode, and it is neither open nor being written. The bytes of every other slot stay.
pub inode_sync-ReadBack :
    (part : Partition) (inode : Inode) (disk : ℕ → ℕ)
    → IsPartition part
    → IsInode inode
    → (disk' : ℕ → ℕ) × (inode_sync part inode disk ≡ done disk')
      × ReadBack inode (read_inode disk' (slot part (inode.i_no % 256)))
      × OthersKept part (inode.i_no % 256) disk disk'
inode_sync-ReadBack part inode disk h w =
    let nr = inode.i_no % 256 in
    let (pos, e, l, t) = inode_locate-Located part nr h (omega arith) in
    let r = write_inode-Replaced part nr pos (inode_byte (pure inode)) disk l in
    (
      write_inode pos (inode_byte (pure inode)) disk,
      inode_sync_lem part inode disk pos e t,
      Replaced-ReadBack part nr inode disk _ w r,
      Replaced-OthersKept part nr (inode_byte (pure inode)) disk _ r,
    )

-- On such a partition `inode_delete` of a number below 4096 always ends, clears the 76 bytes of the
-- slot of that number and keeps every other slot.
pub inode_delete-cleared :
    (part : Partition) (nr : ℕ) (disk : ℕ → ℕ)
    → IsPartition part
    → nr < 4096
    → (disk' : ℕ → ℕ) × (inode_delete part nr disk ≡ done disk')
      × ((k : ℕ) → k < 76 → disk' (slot part nr + k) ≡ 0)
      × OthersKept part nr disk disk'
inode_delete-cleared part nr disk h small =
    let (pos, e, l, t) = inode_locate-Located part nr h small in
    let r = write_inode-Replaced part nr pos (λ k. 0) disk l in
    (
      write_inode pos (λ k. 0) disk,
      inode_delete_lem part nr disk pos e t,
      λ k b. r (slot part nr + k) ∙ ground arith,
      Replaced-OthersKept part nr (λ k. 0) disk _ r,
    )
