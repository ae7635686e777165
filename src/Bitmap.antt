-- ===== src/Bitmap.antt =====
-- sparrow/lib/kernel/bitmap.c: the bitmap that hands out pages, pids, inodes and disk blocks.
-- `bits` is the memory that starts at the pointer `bits`, one byte at each offset: the code reads
-- one byte behind the bitmap, so the model has bytes there. -1 is `none`, and a loop runs on fuel.
pub mod View
pub mod Scan
pub mod Single
pub mod Tests
use Prim.Native.Nat.{bit_and, bit_or}
use sparrow_os.Common.{
  ℕ, zero, suc, ◌+◌, ◌-◌, ◌*◌, ◌/◌, ◌%◌, ◌^◌, not, ◌&&◌, ◌||◌, Option, none, some, ltb, leb, ◌==◌,
  if◌then◌else◌, add32, Outcome, done, out_of_fuel, ◌>>=◌,
}

pub record Bitmap : Type 0 where
  pub btmp_bytes_len : ℕ
  pub bits : ℕ → ℕ

-- `memset(btmp->bits, 0, btmp->btmp_bytes_len)`
pub bitmap_init : Bitmap → Bitmap
bitmap_init btmp = record btmp { bits = λ k. if ltb k btmp.btmp_bytes_len then 0 else btmp.bits k }

-- The answer is the masked byte, so a set bit answers with any power of two below 256.
pub bitmap_scan_test : Bitmap → ℕ → ℕ
bitmap_scan_test btmp bit_idx = bit_and (btmp.bits (bit_idx / 8)) (1 * 2 ^ (bit_idx % 8))

-- `while (bitmap_scan_test(bitmap, area_start) && area_start / 8 < btmp_bytes_len) area_start++;`
pub skip_used : Bitmap → ℕ → ℕ → Outcome ℕ
skip_used btmp zero area_start = out_of_fuel
skip_used btmp (suc fuel) area_start =
    let rest = skip_used btmp fuel (add32 area_start 1) in
    if not (bitmap_scan_test btmp area_start == 0) && ltb (area_start / 8) btmp.btmp_bytes_len
    then rest
    else done area_start

-- The inner loop: `none` is its `return -1`, `some` the size at which it ends.
pub grow_area : Bitmap → ℕ → ℕ → ℕ → ℕ → Outcome (Option ℕ)
grow_area btmp cnt area_start zero area_size = out_of_fuel
grow_area btmp cnt area_start (suc fuel) area_size =
    let rest = grow_area btmp cnt area_start fuel (add32 area_size 1) in
    if ltb area_size cnt
    then if ltb (add32 area_start area_size / 8) btmp.btmp_bytes_len
      then if bitmap_scan_test btmp (add32 area_start area_size) == 0
        then rest
        else done (some area_size)
      else done none
    else done (some area_size)

-- The end of a round of `while (1)`: `again` is the next round.
pub end_round : ℕ → (ℕ → Outcome (Option ℕ)) → ℕ → Option ℕ → Outcome (Option ℕ)
end_round cnt again area_start none = done none
end_round cnt again area_start (some area_size) =
    if area_size == cnt
    then done (some area_start)
    else again (add32 area_start (add32 area_size 1))

-- What a round does once its first loop has stopped at `area_start`.
pub scan_area : Bitmap → ℕ → ℕ → (ℕ → Outcome (Option ℕ)) → ℕ → Outcome (Option ℕ)
scan_area btmp cnt fuel again area_start =
    if leb btmp.btmp_bytes_len (area_start / 8)
    then done none
    else grow_area btmp cnt area_start fuel 1 >>= end_round cnt again area_start

-- `while (1)`: `rounds` is the fuel of this loop, `fuel` that of the loops inside.
pub scan_from : Bitmap → ℕ → ℕ → ℕ → ℕ → Outcome (Option ℕ)
scan_from btmp cnt fuel zero area_start = out_of_fuel
scan_from btmp cnt fuel (suc rounds) area_start =
    skip_used btmp fuel area_start >>= scan_area btmp cnt fuel (scan_from btmp cnt fuel rounds)

pub bitmap_scan : Bitmap → ℕ → Outcome (Option ℕ)
bitmap_scan btmp cnt =
    scan_from btmp cnt (8 * btmp.btmp_bytes_len + 2) (8 * btmp.btmp_bytes_len + 2) 0

-- The byte that `bits[byte_idx] |= mask` or `bits[byte_idx] &= ~mask` leaves; `~mask` is
-- `255 - mask` on a byte.
pub set_in_byte : ℕ → ℕ → ℕ → ℕ
set_in_byte byte bit_odd value =
    if value == 0 then bit_and byte (255 - 1 * 2 ^ bit_odd) else bit_or byte (1 * 2 ^ bit_odd)

-- `none` is the failed ASSERT.
pub bitmap_set : Bitmap → ℕ → ℕ → Option Bitmap
bitmap_set btmp bit_idx value =
    let byte = set_in_byte (btmp.bits (bit_idx / 8)) (bit_idx % 8) value in
    if (value == 0) || (value == 1)
    then some (record btmp { bits = λ k. if k == bit_idx / 8 then byte else btmp.bits k })
    else none
