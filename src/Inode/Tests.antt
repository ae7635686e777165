-- ===== src/Inode/Tests.antt =====
-- A partition, and the theorems about its inodes.
use sparrow_os.Common.{
  ℕ, ◌+◌, ◌%◌, ◌^◌, ◌<◌, ◌≡◌, refl, true, false, some, [], ◌∷◌, arith, ◌==◌, if◌then◌else◌, done,
}
use sparrow_os.Inode.{
  Inode, Partition, InodePosition, OpenInodes, find_inode, inode_locate, in_partition, inode_sync,
  disk_word, read_inode, inode_open,
}
use sparrow_os.Inode.Table.{slot, IsPartition, Located, inode_locate-Located}
use sparrow_os.Inode.Sync.{ReadBack, OthersKept, inode_sync-ReadBack}
use sparrow_os.Inode.OpenList.{opens, IsOpenList}
use sparrow_os.Inode.Opens.{OpensOnce, inode_open-OpensOnce}

abbrev pub part : Partition
part = record { start_lba = 2048; sec_cnt = 100000; inode_table_lba = 2100 }

pub part-IsPartition : IsPartition part
part-IsPartition = record { low = omega arith; high = omega arith; word = omega arith }

-- Inode 6 lies in two sectors.
inode_locate-Located_example :
    (pos : InodePosition) × (inode_locate part 6 ≡ done pos)
    × Located part 6 pos
    × (in_partition part pos ≡ true)
inode_locate-Located_example = inode_locate-Located part 6 part-IsPartition (omega arith)

abbrev sixth : Inode
sixth = record {
  i_no = 6;
  i_size = 70000;
  i_open_cnts = 2;
  write_deny = true;
  i_sectors = λ k. 3000 + k % 13;
}

inode_sync-ReadBack_example :
    (disk' : ℕ → ℕ) × (inode_sync part sixth (λ a. 1) ≡ done disk')
    × ReadBack sixth (read_inode disk' (slot part (6 % 256)))
    × OthersKept part (6 % 256) (λ a. 1) disk'
inode_sync-ReadBack_example =
    inode_sync-ReadBack part sixth (λ a. 1) part-IsPartition
      (record { nr = omega arith; size = omega arith; sectors = λ k. omega arith })

-- A disk with inode 6 in its slot, and inode 9 open three times at 500.
abbrev pub disk_six : ℕ → ℕ
disk_six a = if a == 1075656 then 6 else 0

abbrev pub nine_open : OpenInodes
nine_open = record {
  inodes =
      λ q. record { i_no = 9; i_size = 0; i_open_cnts = 3; write_deny = false; i_sectors = λ k. 0 };
  open_inodes = 500 ∷ [];
}

pub nine_open-IsOpenList : IsOpenList nine_open
nine_open-IsOpenList = record { distinct = (refl, tt); positive = λ p on. omega arith }

pub six_on_disk : (read_inode disk_six (slot part 6)).i_no ≡ 6
unfolding read_inode disk_word
six_on_disk = refl

pub six_closed : opens nine_open 6 + 1 < 2 ^ 32
unfolding find_inode
six_closed = omega arith

inode_open-OpensOnce_example : OpensOnce 6 nine_open (inode_open part 6 700 800 disk_six nine_open)
inode_open-OpensOnce_example =
    inode_open-OpensOnce part 6 700 800 disk_six nine_open part-IsPartition (omega arith)
      nine_open-IsOpenList six_closed (omega arith) (omega arith) refl six_on_disk

pub nine_found : find_inode nine_open.inodes 9 nine_open.open_inodes ≡ some 500
unfolding find_inode
nine_found = refl
