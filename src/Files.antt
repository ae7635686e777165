-- ===== src/Files.antt =====
-- sparrow/fs/file.c, sparrow/fs/fs.c, sparrow/shell/pipe.c and sparrow/userprog/fork.c: the table of
-- open files, the descriptors of the running thread, and the calls that open, close, move and
-- redirect them. -1 is `none`, NULL is 0. Memory that an allocator gives is an argument; `freed`
-- lists the pages that `mfree_page` got back from the pipes. As an index -1 is 2^32 - 1.
pub mod Seek
pub mod Slots
pub mod Open
pub mod Opened
pub mod PipeEnds
pub mod Pipes
pub mod Tests
use sparrow_os.Common.{
  ℕ, zero, suc, ◌+◌, ◌-◌, ◌*◌, ◌/◌, ◌%◌, ◌^◌, ◌<◌, ◌≤◌, ◌≡◌, ◌≢◌, ◌⊎◌, inl, inr, refl, sym, ap,
  subst, ◌∙◌, Bool, true, false, not, ◌&&◌, ◌||◌, Option, none, some, List, [], ◌∷◌, ◌++◌, length,
  get_or, set, replicate, arith, leb, ltb, ◌==◌, if◌then◌else◌, add32, sub32, mul32, Outcome, done,
  panic, out_of_fuel, ◌>>=◌, Bool-cases, Option-cases, assert_then, or_panic, ltb→lt, lt→ltb,
  leb→le, eq-true, eq_self, and-split, holds_below, test_of_holds_below, length-append, length-set,
  get_or-set_self, get_or-set_ne,
}
use sparrow_os.Thread.{as_index}
use sparrow_os.Bitmap.{Bitmap, bitmap_scan, bitmap_set}
use sparrow_os.Inode.{Inode, Partition, OpenInodes, set_inode, inode_open, inode_close}

-- `struct file`; `fd_inode` is the address of an inode, or of the ring of a pipe.
pub record File : Type 0 where
  pub fd_pos : ℕ
  pub fd_flag : ℕ
  pub fd_inode : ℕ

pub record FileSystem : Type 0 where
  pub file_table : ℕ → File
  pub fd_table : ℕ → Option ℕ
  pub open_inodes : OpenInodes
  pub freed : List ℕ

abbrev pub set_file : ℕ → File → FileSystem → FileSystem
set_file g f s = record s { file_table = λ k. if k == g then f else s.file_table k }

abbrev pub set_fd : ℕ → Option ℕ → FileSystem → FileSystem
set_fd fd g s = record s { fd_table = λ k. if k == fd then g else s.fd_table k }

-- The loop over the file table, with the number of rounds that are left.
pub free_slot_from : (ℕ → File) → ℕ → ℕ → Option ℕ
free_slot_from files zero i = none
free_slot_from files (suc left) i =
    let rest = free_slot_from files left (i + 1) in if (files i).fd_inode == 0 then some i else rest

pub get_free_slot_in_global : FileSystem → Option ℕ
get_free_slot_in_global s = free_slot_from s.file_table 29 3

abbrev pub is_free : Option ℕ → Bool
is_free none = true
is_free (some g) = false

-- The loop over the descriptors of the thread.
pub free_fd_from : (ℕ → Option ℕ) → ℕ → ℕ → Option ℕ
free_fd_from fds zero i = none
free_fd_from fds (suc left) i =
    let rest = free_fd_from fds left (i + 1) in if is_free (fds i) then some i else rest

-- The write of the descriptor that the loop found.
pub install_at : Option ℕ → FileSystem → Option ℕ → Option ℕ × FileSystem
install_at g s none = (none, s)
install_at g s (some fd) = (some fd, set_fd fd g s)

pub pcb_fd_install : Option ℕ → FileSystem → Option ℕ × FileSystem
pcb_fd_install g s = install_at g s (free_fd_from s.fd_table 5 3)

-- `inode_bitmap_alloc`, and `block_bitmap_alloc` up to the address of the first data block.
pub bit_alloc : Bitmap → Option ℕ → Outcome (Option ℕ × Bitmap)
bit_alloc map none = done (none, map)
bit_alloc map (some i) = or_panic (bitmap_set map i 1) >>= λ (map' : Bitmap). done (some i, map')

pub inode_bitmap_alloc : Bitmap → Outcome (Option ℕ × Bitmap)
inode_bitmap_alloc map = bitmap_scan map 1 >>= bit_alloc map

abbrev pub to_block : ℕ → Option ℕ → Option ℕ
to_block data_start_lba none = none
to_block data_start_lba (some i) = some (add32 data_start_lba i)

pub block_bitmap_alloc : ℕ → Bitmap → Outcome (Option ℕ × Bitmap)
block_bitmap_alloc data_start_lba map =
    bitmap_scan map 1 >>= bit_alloc map >>= λ ((i, map') : Option ℕ × Bitmap).
    done (to_block data_start_lba i, map')

-- `flag & O_WRONLY || flag & O_RDWR`
abbrev pub writes : ℕ → Bool
writes flag = (flag % 2 == 1) || (flag / 2 % 2 == 1)

-- `file_open` from the open inode `p` on, with the file in slot `g`.
pub claim_file : ℕ → ℕ → ℕ → FileSystem → Option ℕ × FileSystem
claim_file g p flag s =
    let inode = s.open_inodes.inodes p in
    let file : File = record { fd_pos = 0; fd_flag = flag; fd_inode = p } in
    let opened = set_file g file s in
    let claimed = record opened {
      open_inodes = set_inode p (record inode { write_deny = true }) s.open_inodes;
    } in
    if writes flag
    then if inode.write_deny
      then (none, set_file g (record file { fd_inode = 0 }) s)
      else pcb_fd_install (some g) claimed
    else pcb_fd_install (some g) opened

pub open_in :
    Partition → ℕ → ℕ → ℕ → (ℕ → ℕ) → ℕ → FileSystem → Option ℕ → Outcome (Option ℕ × FileSystem)
open_in part inode_no addr buf disk flag s none = done (none, s)
open_in part inode_no addr buf disk flag s (some g) =
    inode_open part inode_no addr buf disk s.open_inodes >>= λ ((p, o) : ℕ × OpenInodes).
    done (claim_file g p flag (record s { open_inodes = o }))

-- `file_open`; `addr` and `buf` are what `sys_malloc` gives for an inode that is not open yet.
pub file_open : Partition → ℕ → ℕ → ℕ → (ℕ → ℕ) → ℕ → FileSystem → Outcome (Option ℕ × FileSystem)
file_open part inode_no addr buf disk flag s =
    open_in part inode_no addr buf disk flag s (get_free_slot_in_global s)

-- `file_close` of the file in slot `g`.
pub file_close : ℕ → FileSystem → FileSystem
file_close g s =
    let file = s.file_table g in
    let inode = s.open_inodes.inodes file.fd_inode in
    let o = set_inode file.fd_inode (record inode { write_deny = false }) s.open_inodes in
    record (set_file g (record file { fd_inode = 0 }) s) {
      open_inodes = inode_close file.fd_inode o;
    }

-- The ASSERT of `fd_local2global`.
pub checked : Option ℕ → Outcome ℕ
checked none = panic
checked (some g) = assert_then (ltb g 32) (done g)

pub fd_local2global : ℕ → FileSystem → Outcome ℕ
fd_local2global local_fd s = checked (s.fd_table local_fd)

abbrev pub pipe_flag : ℕ
pipe_flag = 0xFFFF

pub is_pipe : ℕ → FileSystem → Outcome Bool
is_pipe local_fd s =
    fd_local2global local_fd s >>= λ (g : ℕ). done ((s.file_table g).fd_flag == pipe_flag)

-- One end of the pipe in slot `g` is closed.
pub close_end : ℕ → FileSystem → FileSystem
close_end g s =
    let file = s.file_table g in
    let left = sub32 file.fd_pos 1 in
    if left == 0
    then record (set_file g (record file { fd_pos = left; fd_inode = 0 }) s) {
      freed = file.fd_inode ∷ s.freed;
    }
    else set_file g (record file { fd_pos = left }) s

pub sys_close : ℕ → FileSystem → Outcome (Option ℕ × FileSystem)
sys_close fd s =
    if ltb 2 fd && ltb fd (2 ^ 31)
    then (fd_local2global fd s >>= λ (g : ℕ). is_pipe fd s >>= λ (pipe : Bool).
        done (some 0, set_fd fd none (if pipe then close_end g s else file_close g s)))
    else done (none, s)

-- `a < b` on `int32_t`.
abbrev pub int_lt : ℕ → ℕ → Bool
int_lt a b = ltb (add32 a (2 ^ 31)) (add32 b (2 ^ 31))

-- The switch of `sys_lseek`.
pub new_position : ℕ → ℕ → ℕ → ℕ → ℕ
new_position whence offset fd_pos file_size =
    if whence == 1
    then offset
    else if whence == 2
    then add32 fd_pos offset
    else add32 file_size offset

pub sys_lseek : ℕ → ℕ → ℕ → FileSystem → Outcome (Option ℕ × FileSystem)
sys_lseek fd offset whence s =
    if int_lt fd 0
    then done (none, s)
    else assert_then (ltb 0 whence && ltb whence 4) (
        fd_local2global fd s >>= λ (g : ℕ).
        let file = s.file_table g in
        let file_size = (s.open_inodes.inodes file.fd_inode).i_size in
        let new_pos = new_position whence offset file.fd_pos file_size in
        if int_lt new_pos 0 || int_lt (sub32 file_size 1) new_pos
        then done (none, s)
        else done (some new_pos, set_file g (record file { fd_pos = new_pos }) s))

-- `sys_pipe` with the page that `get_kernel_pages` gave; the ring in it is set up by IoQueue. The
-- descriptors are those of the reading and of the writing end.
pub sys_pipe : ℕ → FileSystem → Option (Option ℕ × Option ℕ) × FileSystem
sys_pipe page s =
    let slot = get_free_slot_in_global s in
    let g = as_index slot in
    let file = s.file_table g in
    let piped = set_file g (record { fd_pos = 2; fd_flag = pipe_flag; fd_inode = page }) s in
    let (read_end, s1) = pcb_fd_install slot piped in
    let (write_end, s2) = pcb_fd_install slot s1 in
    if page == 0
    then (none, set_file g (record file { fd_inode = 0 }) s)
    else (some (read_end, write_end), s2)

pub sys_fd_redirect : ℕ → ℕ → FileSystem → FileSystem
sys_fd_redirect old_local_fd new_local_fd s =
    if ltb new_local_fd 3
    then set_fd old_local_fd (some new_local_fd) s
    else set_fd old_local_fd (s.fd_table new_local_fd) s

-- A descriptor of the parent that the child of a fork shares: one more end of a pipe, or one more
-- opening of the inode.
pub share_file : ℕ → FileSystem → FileSystem
share_file g s =
    let file = s.file_table g in
    let inode = s.open_inodes.inodes file.fd_inode in
    if file.fd_flag == pipe_flag
    then set_file g (record file { fd_pos = add32 file.fd_pos 1 }) s
    else record s {
      open_inodes =
          set_inode file.fd_inode (record inode { i_open_cnts = add32 inode.i_open_cnts 1 })
            s.open_inodes;
    }

pub share_fd : Option ℕ → FileSystem → Outcome FileSystem
share_fd none s = done s
share_fd (some g) s = assert_then (ltb g 32) (done (share_file g s))

-- The loop of `update_inode_open_cnts`, over the descriptors from `fd` on.
pub share_from : ℕ → ℕ → FileSystem → Outcome FileSystem
share_from zero fd s = done s
share_from (suc left) fd s =
    share_fd (s.fd_table fd) s >>= λ (s' : FileSystem). share_from left (fd + 1) s'

pub update_inode_open_cnts : FileSystem → Outcome FileSystem
update_inode_open_cnts s = share_from 5 3 s
