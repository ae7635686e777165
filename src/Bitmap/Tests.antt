-- ===== src/Bitmap/Tests.antt =====
-- Runs of the bitmap functions, and their theorems at a concrete bitmap.
use sparrow_os.Common.{ℕ, ◌≡◌, refl, false, some, arith, ltb, ◌==◌, if◌then◌else◌, done}
use sparrow_os.Bitmap.{
  Bitmap, bitmap_init, bitmap_scan, bitmap_set, scan_from, skip_used, bitmap_scan_test, scan_area,
  grow_area, end_round,
}
use sparrow_os.Bitmap.View.{IsBytes, used, bitmap_init-used, bitmap_set-used}
use sparrow_os.Bitmap.Scan.{Finds, bitmap_scan-Finds}

-- Two bytes; the bits 0 to 4 and 6 are taken.
abbrev sample : Bitmap
sample = record { btmp_bytes_len = 2; bits = λ k. if k == 0 then 0x5f else 0 }

sample-IsBytes : IsBytes sample
sample-IsBytes = record { byte = λ k. ground arith }

scan_runs : bitmap_scan sample 2 ≡ done (some 7)
unfolding bitmap_scan scan_from skip_used bitmap_scan_test scan_area grow_area end_round
scan_runs = refl

bitmap_init-used_example :
    IsBytes (bitmap_init sample)
    × ((j : ℕ) → used (bitmap_init sample) j ≡ (if ltb j 16 then false else used sample j))
bitmap_init-used_example = bitmap_init-used sample sample-IsBytes

bitmap_set-used_example :
    (after : Bitmap) × (bitmap_set sample 5 1 ≡ some after)
    × IsBytes after
    × (after.btmp_bytes_len ≡ 2)
    × ((j : ℕ) → used after j ≡ (if 5 == j then 1 == 1 else used sample j))
bitmap_set-used_example = bitmap_set-used sample 5 1 sample-IsBytes (omega arith)

bitmap_scan-Finds_example : Finds sample 2 0 (bitmap_scan sample 2)
bitmap_scan-Finds_example = bitmap_scan-Finds sample (omega arith) 2 (omega arith)
