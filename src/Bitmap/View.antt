-- ===== src/Bitmap/View.antt =====
-- What a bitmap of sparrow/lib/kernel/bitmap.c says of each bit, and how `bitmap_init` and
-- `bitmap_set` change that.
use Prim.Native.Nat.{bit_and, bit_and-bitwise}
use sparrow_os.Common.{
  bool_eq, bool_eq_sound, and-split, ℕ, zero, suc, ◌*◌, ◌/◌, ◌%◌, ◌^◌, ◌<◌, ◌≡◌, refl, inl, inr,
  Bool, true, false, not, ◌&&◌, some, arith, ltb, ◌==◌, if◌then◌else◌, ltb→lt, eq-true, holds_below,
  test_of_holds_below, Bool-cases,
}
use sparrow_os.Bitmap.{Bitmap, bitmap_init, bitmap_scan_test, set_in_byte, bitmap_set}

-- Bit `i` is taken: the test answers with something else than 0.
abbrev pub used : Bitmap → ℕ → Bool
used btmp i = not (bitmap_scan_test btmp i == 0)

-- Every byte is below 256.
pub record IsBytes (btmp : Bitmap) : Type 0 where
  pub byte : (k : ℕ) → btmp.bits k < 256

-- One byte: setting bit `k` is seen at `k`, and at no other bit.
abbrev seen : ℕ → ℕ → ℕ → ℕ → Bool
seen v x k j =
    bool_eq (bit_and (set_in_byte x k v) (1 * 2 ^ j) == 0)
      (if k == j then v == 0 else bit_and x (1 * 2 ^ j) == 0)
    && ltb (set_in_byte x k v) 256

abbrev table : ℕ → Bool
table v = holds_below (λ x. holds_below (λ k. holds_below (λ j. seen v x k j) 8) 8) 256

table_zero : table 0 ≡ true
unfolding holds_below bool_eq set_in_byte
table_zero = refl

table_one : table 1 ≡ true
unfolding holds_below bool_eq set_in_byte
table_one = refl

seen_lem : (v x k j : ℕ) → table v ≡ true → x < 256 → k < 8 → j < 8 → seen v x k j ≡ true
seen_lem v x k j t hx hk hj =
    test_of_holds_below _ j 8 hj (test_of_holds_below _ k 8 hk (test_of_holds_below _ x 256 hx t))

-- A bitmap after `bitmap_set btmp bit_idx value`.
abbrev pub set_bits : Bitmap → ℕ → ℕ → Bitmap
set_bits btmp i v = record btmp {
  bits = λ k. if k == i / 8 then set_in_byte (btmp.bits (i / 8)) (i % 8) v else btmp.bits k;
}

pub bitmap_set-bit :
    (btmp : Bitmap) (i v : ℕ) → v < 2 → bitmap_set btmp i v ≡ some (set_bits btmp i v)
unfolding bitmap_set
bitmap_set-bit btmp i v h = ground arith

bit_table : (v : ℕ) → v < 2 → table v ≡ true
bit_table zero h = table_zero
bit_table (suc zero) h = table_one
bit_table (suc (suc v)) h = absurd (omega arith)

module _ {btmp : Bitmap} (bytes : IsBytes btmp) (i v : ℕ) (small : v < 2) where
  seen_at : (j : ℕ) → seen v (btmp.bits (i / 8)) (i % 8) (j % 8) ≡ true
  seen_at j =
      seen_lem v (btmp.bits (i / 8)) (i % 8) (j % 8) (bit_table v small) (bytes.byte (i / 8))
        (omega arith) (omega arith)

  set_in_byte-lt : set_in_byte (btmp.bits (i / 8)) (i % 8) v < 256
  set_in_byte-lt = ltb→lt _ _ (and-split _ _ (seen_at 0)).1

  pub set_bits-IsBytes : IsBytes (set_bits btmp i v)
  set_bits-IsBytes = record { byte = λ k. ground (arith, set_in_byte-lt, bytes.byte k) }

  test_after :
      (j : ℕ)
      → (bit_and (set_in_byte (btmp.bits (i / 8)) (i % 8) v) (1 * 2 ^ (j % 8)) == 0)
        ≡ (if i % 8 == j % 8 then v == 0 else bit_and (btmp.bits (i / 8)) (1 * 2 ^ (j % 8)) == 0)
  test_after j = bool_eq_sound _ _ (and-split _ _ (seen_at j)).0

  pub used-set_bits :
      (j : ℕ) → used (set_bits btmp i v) j ≡ (if i == j then v == 1 else used btmp j)
  unfolding bitmap_scan_test
  used-set_bits j = elim (Bool-cases (j / 8 == i / 8)) [
    | inl same ↦ ground (arith, test_after j, eq-true (j / 8) (i / 8) same)
    | inr other ↦ ground arith
  ]

zero-bit_and : (b : ℕ) → bit_and 0 b ≡ 0
zero-bit_and b = bit_and-bitwise 0 b

-- `bitmap_init` frees every bit of the bitmap, changes no bit behind it, and keeps bytes bytes.
pub bitmap_init-used :
    (btmp : Bitmap)
    → IsBytes btmp
    → IsBytes (bitmap_init btmp)
      × ((j : ℕ)
          → used (bitmap_init btmp) j
            ≡ (if ltb j (8 * btmp.btmp_bytes_len) then false else used btmp j))
unfolding bitmap_init bitmap_scan_test
bitmap_init-used btmp bytes = (
  record { byte = λ k. ground (arith, bytes.byte k) },
  λ j. ground (arith, zero-bit_and (1 * 2 ^ (j % 8))),
)

-- On a bitmap of bytes, and for the values that the ASSERT lets pass, `bitmap_set` succeeds, keeps
-- the length and keeps bytes bytes; afterwards bit `i` is taken exactly if `v` is 1, and every
-- other bit is as it was.
pub bitmap_set-used :
    (btmp : Bitmap) (i v : ℕ)
    → IsBytes btmp
    → v < 2
    → (after : Bitmap) × (bitmap_set btmp i v ≡ some after)
      × IsBytes after
      × (after.btmp_bytes_len ≡ btmp.btmp_bytes_len)
      × ((j : ℕ) → used after j ≡ (if i == j then v == 1 else used btmp j))
bitmap_set-used btmp i v bytes small = (
  set_bits btmp i v,
  bitmap_set-bit btmp i v small,
  set_bits-IsBytes bytes i v small,
  refl,
  used-set_bits bytes i v small,
)

pub btmp_bytes_len-bitmap_init :
    (btmp : Bitmap) → (bitmap_init btmp).btmp_bytes_len ≡ btmp.btmp_bytes_len
unfolding bitmap_init
btmp_bytes_len-bitmap_init btmp = refl
