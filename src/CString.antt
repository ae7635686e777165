-- ===== src/CString.antt =====
-- sparrow/lib/string.c over a flat memory of bytes. A pointer is a number and NULL is 0; `panic` is
-- a failed `assert`. A loop that runs to a terminating 0 takes fuel.
pub mod View
pub mod Memory
pub mod Copy
pub mod Compare
pub mod Search
pub mod Tests
use sparrow_os.Common.{
  ℕ, zero, suc, ◌+◌, ◌-◌, ◌%◌, Bool, true, false, not, ◌&&◌, ◌||◌, Option, none, some, ltb, ◌==◌,
  if◌then◌else◌, add32, Outcome, done, out_of_fuel, ◌>>=◌, assert_then,
}

abbrev pub Memory : Type 0
Memory = ℕ → ℕ

abbrev pub write : Memory → ℕ → ℕ → Memory
write m p v a = if a == p then v else m a

abbrev pub is_pointer : ℕ → Bool
is_pointer p = not (p == 0)

-- `a < b` on `char`, which is signed: -128 is the byte 128.
abbrev pub char_lt : ℕ → ℕ → Bool
char_lt a b = ltb ((a + 128) % 256) ((b + 128) % 256)

-- `c == ch` between a `char` and a `uint8_t`: the `char` is widened with its sign, so a byte from
-- 128 on equals no `uint8_t`.
abbrev pub char_eq : ℕ → ℕ → Bool
char_eq c ch = (c == ch) && ltb c 128

pub set_loop : ℕ → ℕ → ℕ → Memory → Memory
set_loop dst value zero m = m
set_loop dst value (suc size) m = set_loop (dst + 1) value size (write m dst value)

pub memset : ℕ → ℕ → ℕ → Memory → Outcome Memory
memset dst value size m = assert_then (is_pointer dst) (done (set_loop dst value size m))

pub copy_loop : ℕ → ℕ → ℕ → Memory → Memory
copy_loop dst src zero m = m
copy_loop dst src (suc size) m = copy_loop (dst + 1) (src + 1) size (write m dst (m src))

pub memcpy : ℕ → ℕ → ℕ → Memory → Outcome Memory
memcpy dst src size m =
    assert_then (is_pointer dst && is_pointer src) (done (copy_loop dst src size m))

-- The results -1, 0 and 1.
pub data Sign : Type 0 where
  less equal greater : Sign

pub compare_loop : ℕ → ℕ → ℕ → Memory → Sign
compare_loop a b zero m = equal
compare_loop a b (suc size) m =
    if m a == m b
    then compare_loop (a + 1) (b + 1) size m
    else if char_lt (m b) (m a)
    then greater
    else less

pub memcmp : ℕ → ℕ → ℕ → Memory → Outcome Sign
memcmp a b size m = assert_then (is_pointer a || is_pointer b) (done (compare_loop a b size m))

-- `while ((*dst_++ = *src_++));`
pub copy_string : ℕ → ℕ → ℕ → Memory → Outcome Memory
copy_string zero dst src m = out_of_fuel
copy_string (suc fuel) dst src m =
    let m' = write m dst (m src) in
    let rest = copy_string fuel (dst + 1) (src + 1) m' in if m src == 0 then done m' else rest

-- The memory afterwards; the pointer that is returned is `dst`.
pub strcpy : ℕ → ℕ → ℕ → Memory → Outcome (ℕ × Memory)
strcpy fuel dst src m =
    assert_then (is_pointer dst && is_pointer src)
      (copy_string fuel dst src m >>= λ (m' : Memory). done (dst, m'))

-- `while (*p++);`: where `p` stands afterwards.
pub find_end : ℕ → ℕ → Memory → Outcome ℕ
find_end zero p m = out_of_fuel
find_end (suc fuel) p m =
    let rest = find_end fuel (p + 1) m in if m p == 0 then done (p + 1) else rest

pub strlen : ℕ → ℕ → Memory → Outcome ℕ
strlen fuel str m =
    assert_then (is_pointer str) (find_end fuel str m >>= λ (p : ℕ). done (p - str - 1))

pub strcmp_loop : ℕ → ℕ → ℕ → Memory → Outcome Sign
strcmp_loop zero a b m = out_of_fuel
strcmp_loop (suc fuel) a b m =
    let rest = strcmp_loop fuel (a + 1) (b + 1) m in
    if not (m a == 0) && (m a == m b)
    then rest
    else if char_lt (m a) (m b)
    then done less
    else if char_lt (m b) (m a)
    then done greater
    else done equal

pub strcmp : ℕ → ℕ → ℕ → Memory → Outcome Sign
strcmp fuel a b m = assert_then (is_pointer a && is_pointer b) (strcmp_loop fuel a b m)

-- NULL is `none`.
pub strchr_loop : ℕ → ℕ → ℕ → Memory → Outcome (Option ℕ)
strchr_loop zero str ch m = out_of_fuel
strchr_loop (suc fuel) str ch m =
    let rest = strchr_loop fuel (str + 1) ch m in
    if m str == 0 then done none else if char_eq (m str) ch then done (some str) else rest

pub strchr : ℕ → ℕ → ℕ → Memory → Outcome (Option ℕ)
strchr fuel str ch m = assert_then (is_pointer str) (strchr_loop fuel str ch m)

pub strrchr_loop : ℕ → ℕ → ℕ → Option ℕ → Memory → Outcome (Option ℕ)
strrchr_loop zero str ch last_char m = out_of_fuel
strrchr_loop (suc fuel) str ch last_char m =
    let rest =
      strrchr_loop fuel (str + 1) ch (if char_eq (m str) ch then some str else last_char) m in
    if m str == 0 then done last_char else rest

pub strrchr : ℕ → ℕ → ℕ → Memory → Outcome (Option ℕ)
strrchr fuel str ch m = assert_then (is_pointer str) (strrchr_loop fuel str ch none m)

pub strcat : ℕ → ℕ → ℕ → Memory → Outcome (ℕ × Memory)
strcat fuel dst src m = assert_then (is_pointer dst && is_pointer src) (
    find_end fuel dst m >>= λ (str : ℕ).
    copy_string fuel (str - 1) src m >>= λ (m' : Memory). done (dst, m'))

pub strchrs_loop : ℕ → ℕ → ℕ → ℕ → Memory → Outcome ℕ
strchrs_loop zero p ch ch_cnt m = out_of_fuel
strchrs_loop (suc fuel) p ch ch_cnt m =
    let rest =
      strchrs_loop fuel (p + 1) ch (if char_eq (m p) ch then add32 ch_cnt 1 else ch_cnt) m in
    if m p == 0 then done ch_cnt else rest

pub strchrs : ℕ → ℕ → ℕ → Memory → Outcome ℕ
strchrs fuel str ch m = assert_then (is_pointer str) (strchrs_loop fuel str ch 0 m)
