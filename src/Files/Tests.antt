-- ===== src/Files/Tests.antt =====
-- A thread with one open file, and the theorems about its descriptors.
use sparrow_os.Common.{
  ℕ, ◌-◌, ◌^◌, ◌≡◌, refl, Option, none, some, [], arith, ltb, ◌==◌, if◌then◌else◌, done,
}
use sparrow_os.Inode.Tests.{
  part, part-IsPartition, nine_open, nine_open-IsOpenList, six_closed, six_on_disk, disk_six,
}
use sparrow_os.Files.{
  FileSystem, free_slot_from, get_free_slot_in_global, pcb_fd_install, file_open, sys_lseek,
}
use sparrow_os.Files.{sys_pipe, install_at, free_fd_from}
use sparrow_os.Files.Pipes.{Piped, sys_close-sys_pipe}
use sparrow_os.Files.Seek.{moved, sys_lseek-moved}
use sparrow_os.Files.Opened.{FileOpened, file_open-FileOpened}

-- Descriptor 3 is slot 3, at byte 5 of inode 9.
abbrev one_file : FileSystem
one_file = record {
  file_table = λ g.
      if g == 3
      then record { fd_pos = 5; fd_flag = 2; fd_inode = 500 }
      else record { fd_pos = 0; fd_flag = 0; fd_inode = 0 };
  fd_table = λ fd. if ltb fd 4 then some fd else none;
  open_inodes = nine_open;
  freed = [];
}

sys_lseek-moved_example :
    (sys_lseek 3 (2 ^ 32 - 2) 1 one_file ≡ done (moved 3 (2 ^ 32 - 2) one_file))
    × (sys_lseek 3 (2 ^ 32 - 2) 2 one_file ≡ done (moved 3 3 one_file))
    × (sys_lseek 3 (2 ^ 32 - 2) 3 one_file ≡ done (moved 3 (2 ^ 32 - 2) one_file))
sys_lseek-moved_example =
    sys_lseek-moved 3 3 (2 ^ 32 - 2) one_file (omega arith) refl (omega arith) (omega arith)
      (omega arith)

fourth_free : get_free_slot_in_global one_file ≡ some 4
unfolding get_free_slot_in_global free_slot_from
fourth_free = refl

file_open-FileOpened_example :
    (r : Option ℕ) × (s' : FileSystem) × (file_open part 6 700 800 disk_six 2 one_file
      ≡ done (r, s'))
    × FileOpened 6 4 one_file r s'
file_open-FileOpened_example =
    file_open-FileOpened part 6 700 800 2 4 disk_six one_file part-IsPartition (omega arith)
      nine_open-IsOpenList six_closed (omega arith) (omega arith) refl six_on_disk fourth_free

-- A pipe gets the descriptors 4 and 5.
pipe_fds : sys_pipe 0xc0200000 one_file ≡ (some (some 4, some 5), (sys_pipe 0xc0200000 one_file).1)
unfolding sys_pipe get_free_slot_in_global free_slot_from pcb_fd_install install_at free_fd_from
pipe_fds = refl

sys_close-sys_pipe_example : Piped 0xc0200000 4 4 5 one_file (sys_pipe 0xc0200000 one_file).1
sys_close-sys_pipe_example =
    sys_close-sys_pipe 0xc0200000 4 4 5 one_file (sys_pipe 0xc0200000 one_file).1 (omega arith)
      fourth_free pipe_fds
