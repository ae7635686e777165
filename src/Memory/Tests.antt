-- ===== src/Memory/Tests.antt =====
-- Addresses, and the theorems at them.
use sparrow_os.Common.{◌≡◌, refl, arith}
use sparrow_os.Memory.{block_desc_init, init_descs}
use sparrow_os.Memory.Addresses.{desc, Placed, arena2block-Placed}

-- The smallest blocks have 16 bytes, and an arena has 255 of them.
smallest : (desc 0).blocks_per_arena ≡ 255
unfolding block_desc_init init_descs
smallest = refl

arena2block-Placed_example : Placed 0xc0100000 (desc 0) 3 9
unfolding block_desc_init init_descs
arena2block-Placed_example =
    arena2block-Placed 0 0xc0100000 3 9 (omega arith) refl (omega arith) (omega arith) (omega arith)
