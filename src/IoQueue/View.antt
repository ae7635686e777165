-- ===== src/IoQueue/View.antt =====
-- The bytes that a ring of sparrow/device/ioqueue.c holds, oldest first.
use sparrow_os.Common.{
  ℕ, zero, suc, ◌+◌, ◌-◌, ◌%◌, ◌<◌, ◌≡◌, refl, ap, List, [], ◌∷◌, ◌++◌, arith, ◌==◌, if◌then◌else◌,
  length,
}
use sparrow_os.IoQueue.{IoQueue, ioq_length, bufsize}

-- The indices lie in the buffer.
pub record IsValid (ioq : IoQueue) : Type 0 where
  pub head_in : ioq.head < bufsize
  pub tail_in : ioq.tail < bufsize

-- The `n` bytes from index `t` on, round the end of the buffer.
abbrev pub window : (ℕ → ℕ) → ℕ → ℕ → List ℕ
window buf t zero = []
window buf t (suc n) = buf t ∷ window buf ((t + 1) % bufsize) n

abbrev pub contents : IoQueue → List ℕ
contents ioq = window ioq.buf ioq.tail (ioq_length ioq)

length-window : (buf : ℕ → ℕ) (t n : ℕ) → length (window buf t n) ≡ n
length-window buf t zero = refl
length-window buf t (suc n) = ap suc (length-window buf ((t + 1) % bufsize) n)

pub length-contents : (ioq : IoQueue) → length (contents ioq) ≡ ioq_length ioq
length-contents ioq = length-window ioq.buf ioq.tail (ioq_length ioq)

-- The length as one expression.
pub ioq_length-mod :
    {ioq : IoQueue} → IsValid ioq → ioq_length ioq ≡ (ioq.head + bufsize - ioq.tail) % bufsize
unfolding ioq_length
ioq_length-mod v = ground arith

-- A byte stored just behind a window is its new last byte.
pub window-store :
    (buf : ℕ → ℕ) (byte n t h : ℕ)
    → t < bufsize
    → n < bufsize
    → h ≡ (t + n) % bufsize
    → window (λ k. if k == h then byte else buf k) t (suc n) ≡ window buf t n ++ byte ∷ []
window-store buf byte zero t h ht hn e = ground arith
window-store buf byte (suc n) t h ht hn e =
    let rest =
      window-store buf byte n ((t + 1) % bufsize) h (omega arith) (omega arith) (omega arith) in
    ground arith
