-- ===== src/Bitmap/Single.antt =====
-- `bitmap_scan` of sparrow/lib/kernel/bitmap.c for a single bit, as the page frames, the pids and
-- the disk blocks use it.
use sparrow_os.Common.{
  ℕ, ◌*◌, ◌<◌, ◌≡◌, ◌⊎◌, inl, inr, refl, true, false, Option, none, some, arith, Outcome, done,
  panic, out_of_fuel, ap, ◌∙◌, Bool-cases,
}
use sparrow_os.Bitmap.{Bitmap, bitmap_scan}
use sparrow_os.Bitmap.View.{used}
use sparrow_os.Bitmap.Scan.{IsRun, IsSmall, Finds, bitmap_scan-Finds}

-- A scan for one bit finds a free bit, or every bit is taken.
abbrev pub FindsOne : Bitmap → Outcome (Option ℕ) → Type 0
FindsOne btmp o =
    ((o ≡ done none) × ((j : ℕ) → j < 8 * btmp.btmp_bytes_len → used btmp j ≡ true))
    ⊎ ((i : ℕ) × (o ≡ done (some i)) × (i < 8 * btmp.btmp_bytes_len) × (used btmp i ≡ false))

IsRun-free :
    (btmp : Bitmap) (j : ℕ) → j < 8 * btmp.btmp_bytes_len → used btmp j ≡ false → IsRun btmp 1 j
IsRun-free btmp j h f = record {
  inside = omega arith;
  free = λ k a b. let e : k ≡ j = omega arith in ap (used btmp) e ∙ f;
}

Finds-FindsOne : (btmp : Bitmap) (o : Outcome (Option ℕ)) → Finds btmp 1 0 o → FindsOne btmp o
Finds-FindsOne btmp (done none) f = inl (
  refl,
  λ j h. elim (Bool-cases (used btmp j)) [
    | inl full ↦ full
    | inr free ↦ absurd (f j (omega arith) (IsRun-free btmp j h free))
  ],
)
Finds-FindsOne btmp (done (some i)) f =
    inr (i, refl, omega (arith, f.0.inside), f.0.free i (omega arith) (omega arith))
Finds-FindsOne btmp panic f = absurd f
Finds-FindsOne btmp out_of_fuel f = absurd f

pub bitmap_scan-FindsOne : (btmp : Bitmap) → IsSmall btmp → FindsOne btmp (bitmap_scan btmp 1)
bitmap_scan-FindsOne btmp small =
    Finds-FindsOne btmp (bitmap_scan btmp 1) (bitmap_scan-Finds btmp small 1 (omega arith))
