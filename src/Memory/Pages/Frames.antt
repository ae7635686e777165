-- ===== src/Memory/Pages/Frames.antt =====
-- The page frames of a pool (sparrow/kernel/memory.c): `palloc` and `pfree`.
use sparrow_os.Common.{
  ℕ, ◌+◌, ◌-◌, ◌*◌, ◌/◌, ◌%◌, ◌^◌, ◌<◌, ◌≤◌, ◌≡◌, ◌≢◌, ◌⊎◌, inl, inr, refl, ap, ◌∙◌, Bool, true,
  false, some, arith, ◌==◌, if◌then◌else◌, add32, mul32, Outcome, done,
}
use sparrow_os.Bitmap.{Bitmap, bitmap_set}
use sparrow_os.Bitmap.View.{used, IsBytes, bitmap_set-used}
use sparrow_os.Bitmap.Scan.{IsSmall}
use sparrow_os.Bitmap.Single.{bitmap_scan-FindsOne}
use sparrow_os.Memory.Pages.{Pool, take_frame, palloc}

-- The number of frames that the bitmap of the pool has bits for.
abbrev pub frames : Pool → ℕ
frames p = 8 * p.pool_bitmap.btmp_bytes_len

-- A pool whose frames are pages of the 32-bit address space, none of them at 0.
pub record IsFrames (p : Pool) : Type 0 where
  pub bytes : IsBytes p.pool_bitmap
  pub small : IsSmall p.pool_bitmap
  pub aligned : p.phy_addr_start % 4096 ≡ 0
  pub high : 0 < p.phy_addr_start
  pub fits : p.phy_addr_start + frames p * 4096 ≤ 2 ^ 32

-- `frame` is the address of a frame of the pool.
pub record Owns (p : Pool) (frame : ℕ) : Type 0 where
  pub aligned : frame % 4096 ≡ 0
  pub above : p.phy_addr_start ≤ frame
  pub below : frame < p.phy_addr_start + frames p * 4096

abbrev pub taken : Pool → ℕ → Bool
taken p frame = used p.pool_bitmap ((frame - p.phy_addr_start) / 4096)

-- `p'` is `p` but for one frame, which is taken or not as `b` says.
pub record Changed (p : Pool) (frame : ℕ) (b : Bool) (p' : Pool) : Type 0 where
  pub start : p'.phy_addr_start ≡ p.phy_addr_start
  pub len : p'.pool_bitmap.btmp_bytes_len ≡ p.pool_bitmap.btmp_bytes_len
  pub holds : p'.holds ≡ p.holds
  pub size : p'.pool_size ≡ p.pool_size
  pub bytes : IsBytes p'.pool_bitmap
  pub here : taken p' frame ≡ b
  pub others : (q : ℕ) → Owns p q → q ≢ frame → taken p' q ≡ taken p q

pub Changed-IsFrames :
    {p p' : Pool} {frame : ℕ} {b : Bool} → IsFrames p → Changed p frame b p' → IsFrames p'
Changed-IsFrames h c = record {
  bytes = c.bytes;
  small = omega (arith, h.small, c.len);
  aligned = omega (arith, h.aligned, c.start);
  high = omega (arith, h.high, c.start);
  fits = omega (arith, h.fits, c.start, c.len);
}

-- Setting bit `i` changes the pool at frame `i` and nowhere else.
pub Changed-bit :
    (p : Pool) (frame i v : ℕ) (map : Bitmap)
    → Owns p frame
    → p.phy_addr_start % 4096 ≡ 0
    → (frame - p.phy_addr_start) / 4096 ≡ i
    → IsBytes map
    → map.btmp_bytes_len ≡ p.pool_bitmap.btmp_bytes_len
    → ((j : ℕ) → used map j ≡ (if i == j then v == 1 else used p.pool_bitmap j))
    → Changed p frame (v == 1) (record p { pool_bitmap = map })
Changed-bit p frame i v map own al e bytes len bits = record {
  start = refl;
  len = len;
  holds = refl;
  size = refl;
  bytes = bytes;
  here = bits ((frame - p.phy_addr_start) / 4096) ∙ ground arith;
  others = λ q o n.
      let differ : (q - p.phy_addr_start) / 4096 ≢ i =
        λ same. n (omega (arith, o.aligned, o.above, own.aligned, own.above)) in
      bits ((q - p.phy_addr_start) / 4096) ∙ ground arith;
}

-- What `palloc` gives: a free frame of the pool, which is taken afterwards, or NULL.
pub record Given (p : Pool) (frame : ℕ) (p' : Pool) : Type 0 where
  pub own : Owns p frame
  pub free : taken p frame ≡ false
  pub changed : Changed p frame true p'

abbrev pub Gives : Pool → Outcome (ℕ × Pool) → Type 0
Gives p o =
    (frame : ℕ) × (p' : Pool) × (o ≡ done (frame, p'))
    × (((frame ≡ 0) × (p' ≡ p) × ((q : ℕ) → Owns p q → taken p q ≡ true)) ⊎ Given p frame p')

take_frame_lem :
    (p : Pool) (i : ℕ) (map : Bitmap)
    → bitmap_set p.pool_bitmap i 1 ≡ some map
    → take_frame p (some i)
      ≡ done (add32 (mul32 i 4096) p.phy_addr_start, record p { pool_bitmap = map })
unfolding take_frame
take_frame_lem p i map s = rw s refl

give_at :
    (p : Pool) (i : ℕ)
    → IsFrames p
    → i < frames p
    → used p.pool_bitmap i ≡ false
    → Gives p (take_frame p (some i))
give_at p i h l f =
    let frame = p.phy_addr_start + i * 4096 in
    let (map, s, bytes, len, bits) = bitmap_set-used p.pool_bitmap i 1 h.bytes (omega arith) in
    let at : add32 (mul32 i 4096) p.phy_addr_start ≡ frame = omega (arith, h.fits) in
    let idx : (frame - p.phy_addr_start) / 4096 ≡ i = omega arith in
    let own : Owns p frame = record {
      aligned = omega (arith, h.aligned);
      above = omega arith;
      below = omega arith;
    } in
    (
      frame,
      record p { pool_bitmap = map },
      take_frame_lem p i map s ∙ ap (λ a. done (a, record p { pool_bitmap = map })) at,
      inr (record {
        own = own;
        free = ap (used p.pool_bitmap) idx ∙ f;
        changed = Changed-bit p frame i 1 map own h.aligned idx bytes len bits;
      }),
    )

-- `palloc` gives a free frame of the pool, page-aligned, and marks it and no other as taken; it
-- answers NULL only where every frame of the pool is taken, and then changes nothing.
pub palloc-Gives : (p : Pool) → IsFrames p → Gives p (palloc p)
unfolding palloc take_frame
palloc-Gives p h = elim (bitmap_scan-FindsOne p.pool_bitmap h.small) [
  | inl (e, full) ↦ (
    0,
    p,
    rw e refl,
    inl (refl, refl, λ q o. full ((q - p.phy_addr_start) / 4096) (omega (arith, o.above, o.below))),
  )
  | inr (i, e, l, f) ↦ rw e (give_at p i h l f)
]
