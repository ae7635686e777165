-- ===== src/Bitmap/Scan.antt =====
-- `bitmap_scan` of sparrow/lib/kernel/bitmap.c finds the first run of free bits, and always ends.
use sparrow_os.Common.{
  ℕ, zero, suc, ◌+◌, ◌*◌, ◌/◌, ◌^◌, ◌≤◌, ◌<◌, ◌≡◌, ◌⊎◌, inl, inr, true, false, Option, none, some,
  arith, ltb, leb, ◌==◌, eq-true, eq_self, ltb→lt, leb→le, add32, Bool-cases, Outcome, done, panic,
  out_of_fuel, ◌>>=◌,
}
use sparrow_os.Bitmap.{
  Bitmap, bitmap_scan_test, skip_used, grow_area, end_round, scan_area, scan_from, bitmap_scan,
}
use sparrow_os.Bitmap.View.{used}

-- The bits `i`, `i + 1`, ..., `i + cnt - 1` lie in the bitmap and are free.
pub record IsRun (btmp : Bitmap) (cnt i : ℕ) : Type 0 where
  pub inside : i + cnt ≤ 8 * btmp.btmp_bytes_len
  pub free : (j : ℕ) → i ≤ j → j < i + cnt → used btmp j ≡ false

-- A bitmap whose bit numbers, and the one behind the last, fit an `int`.
abbrev pub IsSmall : Bitmap → Type 0
IsSmall btmp = 8 * btmp.btmp_bytes_len + 2 < 2 ^ 31

-- What `bitmap_scan` promises: the first run, or none where there is none.
abbrev pub Finds : Bitmap → ℕ → ℕ → Outcome (Option ℕ) → Type 0
Finds btmp cnt from (done (some i)) =
    IsRun btmp cnt i × ((j : ℕ) → from ≤ j → j < i → ¬ IsRun btmp cnt j)
Finds btmp cnt from (done none) = (j : ℕ) → from ≤ j → ¬ IsRun btmp cnt j
Finds btmp cnt from panic = ⊥
Finds btmp cnt from out_of_fuel = ⊥

-- Where the first loop stops.
record Skipped (btmp : Bitmap) (start s : ℕ) : Type 0 where
  later : start ≤ s
  within : s ≤ start ⊎ (s ≤ 8 * btmp.btmp_bytes_len)
  taken : (j : ℕ) → start ≤ j → j < s → used btmp j ≡ true
  stops : (used btmp s ≡ false) ⊎ (8 * btmp.btmp_bytes_len ≤ s)

-- How the inner loop ends when the bits from `start` on are free up to its size.
Grown : Bitmap → ℕ → ℕ → Outcome (Option ℕ) → Type 0
Grown btmp cnt start (done none) = 8 * btmp.btmp_bytes_len < start + cnt
Grown btmp cnt start (done (some n)) =
    IsRun btmp cnt start × (n ≡ cnt)
    ⊎ ((n < cnt) × (start + n < 8 * btmp.btmp_bytes_len) × (used btmp (start + n) ≡ true))
Grown btmp cnt start panic = ⊥
Grown btmp cnt start out_of_fuel = ⊥

add32_small : (a b : ℕ) → a + b < 2 ^ 32 → add32 a b ≡ a + b
add32_small a b h = omega arith

module _ (btmp : Bitmap) (small : IsSmall btmp) where
  skip_used-Skipped :
      (fuel start : ℕ)
      → start ≤ 8 * btmp.btmp_bytes_len + 1
      → 8 * btmp.btmp_bytes_len < start + fuel
      → 0 < fuel
      → (s : ℕ) × (skip_used btmp fuel start ≡ done s) × Skipped btmp start s
  unfolding skip_used
  skip_used-Skipped zero start h m f = absurd (omega arith)
  skip_used-Skipped (suc fuel) start h m f = elim (Bool-cases (used btmp start)) [
    | inr free ↦ (start, rw free, here (inl free))
    | inl full ↦ elim (Bool-cases (ltb (start / 8) btmp.btmp_bytes_len)) [
      | inr past ↦ (start, rw (full, past), here (inr (ground arith)))
      | inl before ↦
          let (s, e, sk) =
            skip_used-Skipped fuel (start + 1) (ground arith) (omega arith) (ground arith) in
          (
            s,
            rw (full, before, add32_small start 1 (omega arith)) e,
            record {
              later = omega (arith, sk.later);
              within = ground (arith, sk.within);
              taken = λ j a b. elim (Bool-cases (j == start)) [
                | inl same ↦ rw (eq-true j start same) full
                | inr other ↦ sk.taken j (ground arith) b
              ];
              stops = sk.stops;
            },
          )
    ]
  ]
    where
      here :
          (used btmp start ≡ false) ⊎ (8 * btmp.btmp_bytes_len ≤ start) → Skipped btmp start start
      here stop = record {
        later = omega arith;
        within = inl (omega arith);
        taken = λ j a b. absurd (omega arith);
        stops = stop;
      }

  grow_area-Grown :
      (cnt start fuel size : ℕ)
      → size ≤ cnt
      → start + size ≤ 8 * btmp.btmp_bytes_len
      → 8 * btmp.btmp_bytes_len < start + size + fuel
      → ((j : ℕ) → start ≤ j → j < start + size → used btmp j ≡ false)
      → Grown btmp cnt start (grow_area btmp cnt start fuel size)
  unfolding grow_area Grown
  grow_area-Grown cnt start zero size hs hb m free = absurd (omega arith)
  grow_area-Grown cnt start (suc fuel) size hs hb m free = elim (Bool-cases (ltb size cnt)) [
    | inr full ↦
        let e : size ≡ cnt = ground arith in
        rw full (inl (record { inside = omega arith; free = rw (← e) free }, e))
    | inl more ↦
        rw (more, add32_small start size (omega arith))
          (elim (Bool-cases (ltb ((start + size) / 8) btmp.btmp_bytes_len)) [
            | inr past ↦ rw past (ground arith)
            | inl before ↦
                rw before (elim (Bool-cases (bitmap_scan_test btmp (start + size) == 0)) [
                  | inr taken ↦ rw taken (inr (ltb→lt size cnt more, ground arith, rw taken))
                  | inl clear ↦
                      rw (clear, add32_small size 1 (omega arith))
                        (grow_area-Grown cnt start fuel (size + 1) (ground arith) (ground arith)
                          (omega arith) (further clear))
                ])
          ])
  ]
    where
      further :
          (bitmap_scan_test btmp (start + size) == 0) ≡ true
          → (j : ℕ) → start ≤ j
          → j < start + (size + 1)
          → used btmp j ≡ false
      further clear j a b = elim (Bool-cases (j == start + size)) [
        | inl same ↦ rw (eq-true j (start + size) same, clear)
        | inr other ↦ free j a (ground arith)
      ]

  -- A run that begins in `[from, next)` is impossible, so a search from `next` serves.
  Finds-later :
      (cnt from next : ℕ) (r : Outcome (Option ℕ))
      → ((j : ℕ) → from ≤ j → j < next → ¬ IsRun btmp cnt j)
      → Finds btmp cnt next r
      → Finds btmp cnt from r
  Finds-later cnt from next (done (some i)) bad found = (
    found.0,
    λ j a b run. elim (Bool-cases (ltb j next)) [
      | inl early ↦ bad j a (ltb→lt j next early) run
      | inr late ↦ found.1 j (ground arith) b run
    ],
  )
  Finds-later cnt from next (done none) bad found = λ j a run. elim (Bool-cases (ltb j next)) [
    | inl early ↦ bad j a (ltb→lt j next early) run
    | inr late ↦ found j (ground arith) run
  ]
  Finds-later cnt from next panic bad found = found
  Finds-later cnt from next out_of_fuel bad found = found

  -- No run holds a taken bit.
  IsRun-ne-used : (cnt j k : ℕ) → j ≤ k → k < j + cnt → used btmp k ≡ true → ¬ IsRun btmp cnt j
  IsRun-ne-used cnt j k a b taken run = let free = run.free k a b in cc

  -- The end of a round, given that the next round finds what is left.
  end_round-Finds :
      (cnt : ℕ) (again : ℕ → Outcome (Option ℕ)) (s : ℕ) (r : Outcome (Option ℕ))
      → 0 < cnt
      → Grown btmp cnt s r
      → ((t : ℕ) → s < t → t ≤ 8 * btmp.btmp_bytes_len → Finds btmp cnt t (again t))
      → Finds btmp cnt s (r >>= end_round cnt again s)
  unfolding Grown end_round
  end_round-Finds cnt again s (done none) pos g rec = λ j a run. omega (arith, run.inside)
  end_round-Finds cnt again s (done (some n)) pos (inl (run, e)) rec =
      rw (e, eq_self) (run, λ j a b. absurd (omega arith))
  end_round-Finds cnt again s (done (some n)) pos (inr (less, before, taken)) rec =
      let short : (n == cnt) ≡ false = ground arith in
      rw (short, add32_small n 1 (omega arith), add32_small s (n + 1) (omega arith))
        (Finds-later cnt s (s + (n + 1)) _
          (λ j a b. IsRun-ne-used cnt j (s + n) (omega arith) (omega arith) taken)
          (rec (s + (n + 1)) (omega arith) (omega arith)))
  end_round-Finds cnt again s panic pos g rec = g
  end_round-Finds cnt again s out_of_fuel pos g rec = g

  scan_area-Finds :
      (cnt fuel : ℕ) (again : ℕ → Outcome (Option ℕ)) (s : ℕ)
      → 0 < cnt
      → 8 * btmp.btmp_bytes_len < s + fuel
      → (used btmp s ≡ false) ⊎ (8 * btmp.btmp_bytes_len ≤ s)
      → ((t : ℕ) → s < t → t ≤ 8 * btmp.btmp_bytes_len → Finds btmp cnt t (again t))
      → Finds btmp cnt s (scan_area btmp cnt fuel again s)
  unfolding scan_area
  scan_area-Finds cnt fuel again s pos m stop rec =
      elim (Bool-cases (leb btmp.btmp_bytes_len (s / 8))) [
        | inl past ↦ rw past (λ j a run.
            let out : btmp.btmp_bytes_len ≤ s / 8 = leb→le _ _ past in omega (arith, run.inside))
        | inr inside ↦
            let before : s < 8 * btmp.btmp_bytes_len = ground arith in
            rw inside (
              end_round-Finds cnt again s (grow_area btmp cnt s fuel 1) pos
                (grow_area-Grown cnt s fuel 1 (omega arith) (omega arith) (omega arith)
                  (λ j a b. rw (eq_first j a b) (ground arith)))
                rec)
      ]
    where
      eq_first : (j : ℕ) → s ≤ j → j < s + 1 → j ≡ s
      eq_first j a b = omega arith

  scan_from-Finds :
      (cnt fuel rounds start : ℕ)
      → 0 < cnt
      → start ≤ 8 * btmp.btmp_bytes_len
      → 8 * btmp.btmp_bytes_len < start + rounds
      → 8 * btmp.btmp_bytes_len < fuel
      → Finds btmp cnt start (scan_from btmp cnt fuel rounds start)
  unfolding scan_from
  scan_from-Finds cnt fuel zero start pos h m f = absurd (omega arith)
  scan_from-Finds cnt fuel (suc rounds) start pos h m f =
      let (s, e, sk) = skip_used-Skipped fuel start (omega arith) (omega arith) (omega arith) in
      rw e (
        Finds-later cnt start s _
          (λ j a b. IsRun-ne-used cnt j j (omega arith) (omega arith) (sk.taken j a b))
          (scan_area-Finds cnt fuel _ s pos (omega arith) sk.stops
            (λ t a b. scan_from-Finds cnt fuel rounds t pos b (omega (arith, sk.later)) f)))

  -- For a bitmap whose number of bits plus 2 is below 2^31, and a positive count, `bitmap_scan` ends
  -- within its fuel. It returns the start of the first run of `cnt` free bits in the bitmap, and -1
  -- exactly where the bitmap has no such run.
  pub bitmap_scan-Finds : (cnt : ℕ) → 0 < cnt → Finds btmp cnt 0 (bitmap_scan btmp cnt)
  unfolding bitmap_scan
  bitmap_scan-Finds cnt pos =
      scan_from-Finds cnt (8 * btmp.btmp_bytes_len + 2) (8 * btmp.btmp_bytes_len + 2) 0 pos
        (omega arith) (omega arith) (omega arith)
