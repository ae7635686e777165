-- ===== src/Thread/Pid.antt =====
-- The pids of sparrow/thread/thread.c: `allocate_pid` and `release_pid` on a pool of 1024 pids.
use sparrow_os.Common.{
  ℕ, ◌≡◌, ◌≢◌, ◌<◌, ◌≤◌, ◌-◌, ◌+◌, ◌^◌, ◌%◌, refl, ap, ◌∙◌, Bool, true, false, arith, add32, sub32,
  ◌==◌, if◌then◌else◌, Option, some, none, Outcome, done, panic, out_of_fuel,
}
use sparrow_os.Bitmap.{Bitmap, bitmap_scan, bitmap_set}
use sparrow_os.Bitmap.View.{
  used, IsBytes, bitmap_set-used, bitmap_init-used, btmp_bytes_len-bitmap_init,
}
use sparrow_os.Bitmap.Scan.{IsRun, IsSmall, Finds, bitmap_scan-Finds}
use sparrow_os.Thread.{PidPool, pid_pool_init, allocate_pid, release_pid}

-- Somebody has the pid.
abbrev pub live : PidPool → ℕ → Bool
live pool pid = used pool.pid_bitmap (pid - 1)

-- The pool as `pid_pool_init` builds it: 128 bytes of bits, the first for pid 1.
pub record IsPool (pool : PidPool) : Type 0 where
  pub start : pool.pid_start ≡ 1
  pub len : pool.pid_bitmap.btmp_bytes_len ≡ 128
  pub bytes : IsBytes pool.pid_bitmap

-- A pid that the pool can give.
abbrev pub InPool : ℕ → Type 0
InPool pid = (0 < pid) × (pid ≤ 1024)

-- `pool'` is `pool` but for the pid, which is live or not as `b` says.
pub record Changed (pool : PidPool) (pid : ℕ) (b : Bool) (pool' : PidPool) : Type 0 where
  pub is_pool : IsPool pool'
  pub here : live pool' pid ≡ b
  pub others : (q : ℕ) → 0 < q → q ≢ pid → live pool' q ≡ live pool q

IsPool-IsSmall : (pool : PidPool) → IsPool pool → IsSmall pool.pid_bitmap
IsPool-IsSmall pool h = omega (arith, h.len)

found :
    (btmp : Bitmap) (j : ℕ) (o : Outcome (Option ℕ))
    → Finds btmp 1 0 o
    → IsRun btmp 1 j
    → (i : ℕ) × (o ≡ done (some i)) × IsRun btmp 1 i
found btmp j (done none) f r = absurd (f j (omega arith) r)
found btmp j (done (some i)) f r = (i, refl, f.0)
found btmp j panic f r = absurd f
found btmp j out_of_fuel f r = absurd f

take_pid :
    (pool : PidPool) (i : ℕ) (map : Bitmap)
    → bitmap_scan pool.pid_bitmap 1 ≡ done (some i)
    → bitmap_set pool.pid_bitmap i 1 ≡ some map
    → allocate_pid pool ≡ done (add32 i pool.pid_start % 2 ^ 16, record pool { pid_bitmap = map })
unfolding allocate_pid
take_pid pool i map e s = rw (e, s) refl

drop_pid :
    (pool : PidPool) (pid i : ℕ) (map : Bitmap)
    → sub32 pid pool.pid_start ≡ i
    → bitmap_set pool.pid_bitmap i 0 ≡ some map
    → release_pid pid pool ≡ done (record pool { pid_bitmap = map })
unfolding release_pid
drop_pid pool pid i map e s = rw (e, s) refl

-- Setting the bit of a pid changes the pool at the pid and nowhere else.
Changed-bit :
    (pool : PidPool) (pid i v : ℕ) (map : Bitmap)
    → IsPool pool
    → pid ≡ i + 1
    → IsBytes map
    → map.btmp_bytes_len ≡ pool.pid_bitmap.btmp_bytes_len
    → ((j : ℕ) → used map j ≡ (if i == j then v == 1 else used pool.pid_bitmap j))
    → Changed pool pid (v == 1) (record pool { pid_bitmap = map })
Changed-bit pool pid i v map h e bytes len bits = record {
  is_pool = record { start = h.start; len = len ∙ h.len; bytes = bytes };
  here = bits (pid - 1) ∙ ground arith;
  others = λ q p n. bits (q - 1) ∙ ground arith;
}

-- What `allocate_pid` promises.
abbrev pub Allocated : PidPool → Outcome (ℕ × PidPool) → Type 0
Allocated pool o =
    (pid : ℕ) × (pool' : PidPool) × (o ≡ done (pid, pool'))
    × InPool pid
    × (live pool pid ≡ false)
    × Changed pool pid true pool'

allocate_at :
    (pool : PidPool) (i : ℕ)
    → IsPool pool
    → bitmap_scan pool.pid_bitmap 1 ≡ done (some i)
    → IsRun pool.pid_bitmap 1 i
    → Allocated pool (allocate_pid pool)
allocate_at pool i h e run =
    let (map, s, bytes, len, bits) = bitmap_set-used pool.pid_bitmap i 1 h.bytes (omega arith) in
    let pid : add32 i pool.pid_start % 2 ^ 16 ≡ i + 1 = omega (arith, h.start, run.inside, h.len) in
    let idx : i + 1 - 1 ≡ i = omega arith in
    (
      i + 1,
      record pool { pid_bitmap = map },
      take_pid pool i map e s ∙ ap (λ p. done (p, record pool { pid_bitmap = map })) pid,
      (omega arith, omega (arith, run.inside, h.len)),
      ap (used pool.pid_bitmap) idx ∙ run.free i (omega arith) (omega arith),
      Changed-bit pool (i + 1) i 1 map h refl bytes len bits,
    )

-- While some pid of the pool is free, `allocate_pid` gives a pid between 1 and 1024 that nobody
-- had, marks it as taken and changes nothing else.
pub allocate_pid-Changed :
    (pool : PidPool) (free : ℕ)
    → IsPool pool
    → InPool free
    → live pool free ≡ false
    → Allocated pool (allocate_pid pool)
allocate_pid-Changed pool free h inside f =
    let room : IsRun pool.pid_bitmap 1 (free - 1) = record {
      inside = omega (arith, h.len);
      free = λ j a b. ap (used pool.pid_bitmap) (omega arith) ∙ f;
    } in
    let (i, e, run) =
      found pool.pid_bitmap (free - 1) (bitmap_scan pool.pid_bitmap 1)
        (bitmap_scan-Finds pool.pid_bitmap (IsPool-IsSmall pool h) 1 (omega arith)) room in
    allocate_at pool i h e run

-- `release_pid` of a pid of the pool frees it and changes nothing else.
pub release_pid-Changed :
    (pool : PidPool) (pid : ℕ)
    → IsPool pool
    → InPool pid
    → (pool' : PidPool) × (release_pid pid pool ≡ done pool') × Changed pool pid false pool'
release_pid-Changed pool pid h inside =
    let idx : sub32 pid pool.pid_start ≡ pid - 1 = omega (arith, h.start) in
    let (map, s, bytes, len, bits) =
      bitmap_set-used pool.pid_bitmap (pid - 1) 0 h.bytes (omega arith) in
    (
      record pool { pid_bitmap = map },
      drop_pid pool pid (pid - 1) map idx s,
      Changed-bit pool pid (pid - 1) 0 map h (omega arith) bytes len bits,
    )

-- `pid_pool_init` makes a pool in which all 1024 pids are free.
pub pid_pool_init-IsPool :
    (bits : ℕ → ℕ)
    → ((k : ℕ) → bits k < 256)
    → IsPool (pid_pool_init bits) × ((pid : ℕ) → InPool pid → live (pid_pool_init bits) pid ≡ false)
unfolding pid_pool_init
pid_pool_init-IsPool bits b =
    let (bytes, free) =
      bitmap_init-used (record { btmp_bytes_len = 128; bits = bits }) (record { byte = b }) in
    (
      record {
        start = refl;
        len = btmp_bytes_len-bitmap_init (record { btmp_bytes_len = 128; bits = bits });
        bytes = bytes;
      },
      λ pid inside. free (pid - 1) ∙ ground arith,
    )
