-- ===== src/Inode/Table.antt =====
-- The table of inodes on the disk (sparrow/fs/inode.c): each inode has its own bytes.
use sparrow_os.Common.{
  ℕ, ◌+◌, ◌-◌, ◌*◌, ◌/◌, ◌%◌, ◌^◌, ◌<◌, ◌≤◌, ◌≡◌, inl, inr, refl, true, false, ◌&&◌, arith, leb,
  ltb, if◌then◌else◌, add32, mul32, done, Bool-cases, lt→ltb,
}
use sparrow_os.Inode.{
  Partition, InodePosition, inode_locate, ide_read, ide_write, put_inode, write_inode, in_partition,
}

-- The first byte of an inode in the table.
abbrev pub slot : Partition → ℕ → ℕ
slot part inode_no = part.inode_table_lba * 512 + inode_no * 76

-- The position of an inode: its bytes are those of its slot, in one sector or in two.
pub record Located (part : Partition) (inode_no : ℕ) (pos : InodePosition) : Type 0 where
  pub at : pos.sec_lba * 512 + pos.off_size ≡ slot part inode_no
  pub inside : pos.off_size < 512
  pub one : pos.two_sec ≡ false → pos.off_size + 76 ≤ 512
  pub two : pos.two_sec ≡ true → 512 < pos.off_size + 76

-- A partition whose inode table, with 4096 inodes, ends inside it and on the disk.
pub record IsPartition (part : Partition) : Type 0 where
  pub low : part.start_lba ≤ part.inode_table_lba
  pub high : part.inode_table_lba + 608 ≤ part.start_lba + part.sec_cnt
  pub word : part.start_lba + part.sec_cnt < 2 ^ 32

-- On a partition that holds its inode table, for an inode number below 4096, `inode_locate` gives
-- the sector and the offset of the slot of the inode, and asks for two sectors exactly where the
-- slot crosses the end of the first; the sector lies in the partition.
pub inode_locate-Located :
    (part : Partition) (inode_no : ℕ)
    → IsPartition part
    → inode_no < 4096
    → (pos : InodePosition) × (inode_locate part inode_no ≡ done pos)
      × Located part inode_no pos
      × (in_partition part pos ≡ true)
unfolding inode_locate in_partition
inode_locate-Located part inode_no h small = (
  record {
    two_sec = ltb (512 - mul32 inode_no 76 % 512) 76;
    sec_lba = add32 part.inode_table_lba (mul32 inode_no 76 / 512);
    off_size = mul32 inode_no 76 % 512;
  },
  rw (lt→ltb inode_no 4096 small) refl,
  record {
    at = omega (arith, h.high, h.word);
    inside = omega arith;
    one = λ e. ground arith;
    two = λ e. ground arith;
  },
  ground (arith, h.high, h.word),
)

-- The disk `disk'` is `disk` with `bytes` in the slot of an inode.
abbrev pub Replaced : Partition → ℕ → (ℕ → ℕ) → (ℕ → ℕ) → (ℕ → ℕ) → Type 0
Replaced part inode_no bytes disk disk' =
    (a : ℕ)
    → disk' a ≡ (
        if leb (slot part inode_no) a && ltb a (slot part inode_no + 76)
        then bytes (a - slot part inode_no)
        else disk a)

-- Reading the sectors, replacing the bytes of the inode and writing the sectors changes these
-- bytes only.
pub write_inode-Replaced :
    (part : Partition) (inode_no : ℕ) (pos : InodePosition) (bytes disk : ℕ → ℕ)
    → Located part inode_no pos
    → Replaced part inode_no bytes disk (write_inode pos bytes disk)
unfolding write_inode
write_inode-Replaced part inode_no pos bytes disk h a =
    elim (Bool-cases (leb (slot part inode_no) a && ltb a (slot part inode_no + 76))) [
      | inl inside ↦ elim (Bool-cases pos.two_sec) [
        | inl both ↦ rw (inside, both) (write_in 2 (omega (arith, h.inside)) inside)
        | inr single ↦ rw (inside, single) (write_in 1 (omega (arith, h.one single)) inside)
      ]
      | inr outside ↦ rw outside (write_out (if pos.two_sec then 2 else 1) outside)
    ]
  where
    lba : ℕ
    lba = pos.sec_lba

    write_in :
        (n : ℕ)
        → pos.off_size + 76 ≤ n * 512
        → (leb (slot part inode_no) a && ltb a (slot part inode_no + 76)) ≡ true
        → ide_write pos.sec_lba n (put_inode pos.off_size bytes (ide_read pos.sec_lba disk)) disk a
          ≡ bytes (a - slot part inode_no)
    write_in n room inside =
        let le : slot part inode_no ≤ a = ground arith in
        let lt : a < slot part inode_no + 76 = ground arith in
        let in_sectors : (leb (pos.sec_lba * 512) a && ltb a ((pos.sec_lba + n) * 512)) ≡ true =
          ground (arith, h.at) in
        let in_slot : (leb pos.off_size (a - pos.sec_lba * 512)
              && ltb (a - pos.sec_lba * 512) (pos.off_size + 76))
            ≡ true =
          ground (arith, h.at) in
        let k : a - pos.sec_lba * 512 - pos.off_size ≡ a - slot part inode_no =
          omega (arith, h.at) in
        rw (in_sectors, in_slot, k) refl

    write_out :
        (n : ℕ)
        → (leb (slot part inode_no) a && ltb a (slot part inode_no + 76)) ≡ false
        → ide_write pos.sec_lba n (put_inode pos.off_size bytes (ide_read pos.sec_lba disk)) disk a
          ≡ disk a
    write_out n outside =
        elim (Bool-cases (leb (pos.sec_lba * 512) a && ltb a ((pos.sec_lba + n) * 512))) [
          | inr beyond ↦ rw beyond refl
          | inl near ↦
              let le : pos.sec_lba * 512 ≤ a = ground arith in
              let not_slot : (leb pos.off_size (a - pos.sec_lba * 512)
                    && ltb (a - pos.sec_lba * 512) (pos.off_size + 76))
                  ≡ false =
                ground (arith, h.at) in
              let back : pos.sec_lba * 512 + (a - pos.sec_lba * 512) ≡ a = omega arith in
              rw (near, not_slot, back) refl
        ]
