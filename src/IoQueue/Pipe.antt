-- ===== src/IoQueue/Pipe.antt =====
-- `pipe_read` and `pipe_write` of sparrow/shell/pipe.c on the bytes that the pipe holds.
use mathlib.Core.List.{append_assoc, append-nil}
use native.Mathlib.Nat.{add-zero, zero-add}
use sparrow_os.Common.{
  ℕ, zero, suc, ◌+◌, ◌-◌, ◌≤◌, ◌<◌, ◌≡◌, refl, sym, ap, ◌∙◌, List, [], ◌∷◌, ◌++◌, arith, ltb,
  length, take, drop, take_all, drop_all, length-append, length-take, lt→ltb, Option, Bool-cases,
  inl, inr, if◌then◌else◌, true, none, some, ◌==◌, false, subst,
}
use sparrow_os.IoQueue.{
  IoQueue, Call, returns, waits, waits_lock, panic, bufsize, ioq_length, may_lock, ioq_getchar,
  ioq_putchar, Transfer, finished, stopped, read_loop, write_loop, pipe_read, pipe_write, may_lock,
}
use sparrow_os.IoQueue.View.{IsValid, contents, length-contents}
use sparrow_os.IoQueue.Fifo.{capacity, Put, Get, ioq_putchar-Put, ioq_getchar-Get}

-- A write that ends: all bytes are behind those that the ring held.
abbrev pub Written : ℕ → List ℕ → IoQueue → Transfer ℕ → Type 0
Written n bytes ioq (finished m ioq') =
    (m ≡ n + length bytes) × (contents ioq' ≡ contents ioq ++ bytes) × IsValid ioq'
Written n bytes ioq (stopped m c) = ⊥

-- A write by `self` that sleeps after `n` bytes: they are in the ring behind those that it held. The
-- thread is its sleeping producer and has the lock, or it sleeps on the lock of another thread.
abbrev pub SleepsAfter : ℕ → ℕ → List ℕ → IoQueue → Transfer ℕ → Type 0
SleepsAfter self n bytes ioq (stopped m (waits ioq')) =
    (m ≡ n)
    × (contents ioq' ≡ contents ioq ++ bytes)
    × (ioq'.producer ≡ some self)
    × (ioq'.lock ≡ some self)
    × (may_lock self ioq ≡ true)
SleepsAfter self n bytes ioq (stopped m (waits_lock ioq')) =
    (m ≡ n)
    × (contents ioq' ≡ contents ioq ++ bytes)
    × (ioq'.producer ≡ none)
    × (ioq'.lock ≡ ioq.lock)
    × (may_lock self ioq ≡ false)
SleepsAfter self n bytes ioq t = ⊥

abbrev pub ReadOff : List ℕ → List ℕ → Transfer (List ℕ) → Type 0
ReadOff bytes rest (finished got ioq') = (got ≡ bytes) × (contents ioq' ≡ rest) × IsValid ioq'
ReadOff bytes rest (stopped got c) = ⊥

returns_of_room :
    (self : ℕ) (ioq : IoQueue) (b : ℕ) (c : Call (Unit {0}))
    → length (contents ioq) < capacity
    → Put self ioq b c
    → (woken : Option ℕ) × (ioq' : IoQueue) × (c ≡ returns tt woken ioq')
      × (contents ioq' ≡ contents ioq ++ b ∷ [])
      × IsValid ioq'
      × (ioq'.producer ≡ ioq.producer)
      × (ioq'.lock ≡ ioq.lock)
returns_of_room self ioq b (returns tt woken ioq') h p = (woken, ioq', refl, p.1, p.6, p.4, p.5)
returns_of_room self ioq b (waits ioq') h p = absurd (omega arith)
returns_of_room self ioq b (waits_lock ioq') h p = absurd (omega arith)
returns_of_room self ioq b panic h p = absurd (omega arith)

returns_of_bytes :
    (self : ℕ) (ioq : IoQueue) (c : Call ℕ)
    → 0 < length (contents ioq)
    → Get self ioq c
    → (byte : ℕ) × (woken : Option ℕ) × (ioq' : IoQueue) × (c ≡ returns byte woken ioq')
      × (contents ioq ≡ byte ∷ contents ioq')
      × IsValid ioq'
returns_of_bytes self ioq (returns byte woken ioq') h p = (byte, woken, ioq', refl, p.0, p.5)
returns_of_bytes self ioq (waits ioq') h p = absurd (omega (arith, ap length p.0))
returns_of_bytes self ioq (waits_lock ioq') h p = absurd (omega (arith, ap length p.0))
returns_of_bytes self ioq panic h p = absurd (omega (arith, ap length p.0))

Written-cons :
    (n b : ℕ) (bytes : List ℕ) (ioq ioq' : IoQueue) (t : Transfer ℕ)
    → contents ioq' ≡ contents ioq ++ b ∷ []
    → Written (n + 1) bytes ioq' t
    → Written n (b ∷ bytes) ioq t
Written-cons n b bytes ioq ioq' (finished m q) e w =
    (omega arith, w.1 ∙ rw e (append_assoc (contents ioq) (b ∷ []) bytes), w.2)
Written-cons n b bytes ioq ioq' (stopped m c) e w = w

may_lock-same :
    (self : ℕ) (ioq ioq' : IoQueue) → ioq'.lock ≡ ioq.lock → may_lock self ioq ≡ may_lock self ioq'
may_lock-same self ioq ioq' l =
    ap (λ o. elim o [ none ↦ true | some holder ↦ holder == self ]) (sym l)

SleepsAfter-cons :
    (self n m b : ℕ) (bytes : List ℕ) (ioq ioq' : IoQueue) (t : Transfer ℕ)
    → contents ioq' ≡ contents ioq ++ b ∷ []
    → ioq'.lock ≡ ioq.lock
    → m ≡ n
    → SleepsAfter self m bytes ioq' t
    → SleepsAfter self n (b ∷ bytes) ioq t
SleepsAfter-cons self n m b bytes ioq ioq' (finished k q) e l i w = w
SleepsAfter-cons self n m b bytes ioq ioq' (stopped k (returns u woken q)) e l i w = w
SleepsAfter-cons self n m b bytes ioq ioq' (stopped k (waits q)) e l i w = (
  w.0 ∙ i,
  w.1 ∙ rw e (append_assoc (contents ioq) (b ∷ []) bytes),
  w.2,
  w.3,
  may_lock-same self ioq ioq' l ∙ w.4,
)
SleepsAfter-cons self n m b bytes ioq ioq' (stopped k (waits_lock q)) e l i w = (
  w.0 ∙ i,
  w.1 ∙ rw e (append_assoc (contents ioq) (b ∷ []) bytes),
  w.2,
  w.3 ∙ l,
  may_lock-same self ioq ioq' l ∙ w.4,
)
SleepsAfter-cons self n m b bytes ioq ioq' (stopped k panic) e l i w = w

ReadOff-eq :
    (bytes bytes' rest rest' : List ℕ) (t : Transfer (List ℕ))
    → bytes ≡ bytes'
    → rest ≡ rest'
    → ReadOff bytes rest t
    → ReadOff bytes' rest' t
ReadOff-eq bytes bytes' rest rest' (finished got q) e f r = (r.0 ∙ e, r.1 ∙ f, r.2)
ReadOff-eq bytes bytes' rest rest' (stopped got c) e f r = r

take-take : (k n : ℕ) (xs : List ℕ) → k ≤ n → take k (take n xs) ≡ take k xs
take-take zero n xs h = refl
take-take (suc k) zero xs h = absurd (omega arith)
take-take (suc k) (suc n) [] h = refl
take-take (suc k) (suc n) (x ∷ xs) h = ap (λ ys. x ∷ ys) (take-take k n xs (omega arith))

length-snoc : (xs : List ℕ) (b : ℕ) → length (xs ++ b ∷ []) ≡ suc (length xs)
length-snoc xs b = omega (arith, length-append xs (b ∷ []))

module _ (self : ℕ) where
  write_loop-Written :
      (n : ℕ) (bytes : List ℕ) (ioq : IoQueue)
      → IsValid ioq
      → length (contents ioq) + length bytes ≤ capacity
      → Written n bytes ioq (write_loop self n bytes ioq)
  unfolding write_loop
  write_loop-Written n [] ioq v room = (omega arith, sym (append-nil (contents ioq)), v)
  write_loop-Written n (b ∷ bytes) ioq v room =
      let (woken, ioq', e, c, v', producer, lock) =
        returns_of_room self ioq b (ioq_putchar self ioq b) (omega arith)
          (ioq_putchar-Put v self b) in
      rw (e, write_loop)
        (Written-cons n b bytes ioq ioq' _ c (
          write_loop-Written (n + 1) bytes ioq' v'
            (omega (arith, ap length c, length-snoc (contents ioq) b))))

  sleeps_of_full :
      (n b : ℕ) (bytes : List ℕ) (ioq : IoQueue)
      → IsValid ioq
      → ioq.producer ≡ none
      → length (contents ioq) ≡ capacity
      → SleepsAfter self n [] ioq (write_loop self n (b ∷ bytes) ioq)
  unfolding write_loop ioq_length
  sleeps_of_full n b bytes ioq v vacant full =
      after (ioq_putchar self ioq b) (ioq_putchar-Put v self b)
    where
      after :
          (c : Call (Unit {0}))
          → Put self ioq b c
          → SleepsAfter self n [] ioq (elim c [
            | returns _ woken ioq' ↦ write_loop self (n + 1) bytes ioq'
            | waits ioq' ↦ stopped n (waits ioq')
            | waits_lock ioq' ↦ stopped n (waits_lock ioq')
            | panic ↦ stopped n panic
          ])
      after (returns u woken ioq') p = absurd (omega arith)
      after (waits ioq') p = (
        refl,
        ap contents p.2 ∙ sym (append-nil (contents ioq)),
        ap (λ q. q.producer) p.2,
        ap (λ q. q.lock) p.2,
        p.3,
      )
      after (waits_lock ioq') p = (
        refl,
        ap contents p.2 ∙ sym (append-nil (contents ioq)),
        ap (λ q. q.producer) p.2 ∙ vacant,
        ap (λ q. q.lock) p.2,
        p.1,
      )
      after panic p = p.1 vacant

  write_loop-SleepsAfter :
      (n : ℕ) (bytes : List ℕ) (ioq : IoQueue) (k : ℕ)
      → IsValid ioq
      → ioq.producer ≡ none
      → length (contents ioq) + k ≡ capacity
      → k < length bytes
      → SleepsAfter self (n + k) (take k bytes) ioq (write_loop self n bytes ioq)
  unfolding write_loop
  write_loop-SleepsAfter n [] ioq k v vacant room h = absurd (omega arith)
  write_loop-SleepsAfter n (b ∷ bytes) ioq zero v vacant room h =
      rw add-zero (sleeps_of_full n b bytes ioq v vacant (omega arith))
  write_loop-SleepsAfter n (b ∷ bytes) ioq (suc k) v vacant room h =
      let (woken, ioq', e, c, v', producer, lock) =
        returns_of_room self ioq b (ioq_putchar self ioq b) (omega arith)
          (ioq_putchar-Put v self b) in
      rw (e, write_loop)
        (SleepsAfter-cons self (n + suc k) (n + 1 + k) b (take k bytes) ioq ioq' _ c lock
          (omega arith)
          (write_loop-SleepsAfter (n + 1) bytes ioq' k v' (producer ∙ vacant)
            (omega (arith, ap length c, length-snoc (contents ioq) b)) (omega arith)))

  read_loop-ReadOff :
      (n : ℕ) (buffer : List ℕ) (ioq : IoQueue)
      → IsValid ioq
      → n ≤ length (contents ioq)
      → ReadOff
          (buffer ++ take n (contents ioq))
          (drop n (contents ioq))
          (read_loop self n buffer ioq)
  unfolding read_loop
  read_loop-ReadOff zero buffer ioq v h = (sym (append-nil buffer), refl, v)
  read_loop-ReadOff (suc n) buffer ioq v h =
      let (byte, woken, ioq', e, c, v') =
        returns_of_bytes self ioq (ioq_getchar self ioq) (omega arith) (ioq_getchar-Get v self) in
      rw (e, c, read_loop)
        (ReadOff-eq _ _ _ _ _ (append_assoc buffer (byte ∷ []) (take n (contents ioq'))) refl
          (read_loop-ReadOff n (buffer ++ byte ∷ []) ioq' v' (omega (arith, ap length c))))

  -- `pipe_read` on a valid pipe never sleeps: it reads as many bytes as were asked for and are
  -- there, the oldest ones in order, and leaves the rest.
  pub pipe_read-ReadOff :
      (count : ℕ) (ioq : IoQueue)
      → IsValid ioq
      → ReadOff (take count (contents ioq)) (drop count (contents ioq)) (pipe_read self count ioq)
  unfolding pipe_read
  pipe_read-ReadOff count ioq v = elim (Bool-cases (ltb count (ioq_length ioq))) [
    | inl less ↦ rw less (read_loop-ReadOff count [] ioq v (ground (arith, length-contents ioq)))
    | inr more ↦
        let all : length (contents ioq) ≤ count = ground (arith, length-contents ioq) in
        rw more (
          ReadOff-eq _ _ _ _ _
            (take_all (ioq_length ioq) (contents ioq) (omega (arith, length-contents ioq))
              ∙ sym (take_all count (contents ioq) all))
            (drop_all (ioq_length ioq) (contents ioq) (omega (arith, length-contents ioq))
              ∙ sym (drop_all count (contents ioq) all))
            (read_loop-ReadOff (ioq_length ioq) [] ioq v (omega (arith, length-contents ioq))))
  ]

  -- `pipe_write` on a valid pipe with room for the bytes writes all of them, in order, and does not
  -- sleep.
  pub pipe_write-Written :
      (bytes : List ℕ) (ioq : IoQueue)
      → IsValid ioq
      → length (contents ioq) + length bytes ≤ capacity
      → Written 0 bytes ioq (pipe_write self bytes ioq)
  unfolding pipe_write
  pipe_write-Written bytes ioq v room =
      let fits : ltb (length bytes) (bufsize - ioq_length ioq) ≡ true =
        lt→ltb _ _ (omega (arith, length-contents ioq)) in
      rw (fits, take_all (length bytes) bytes (omega arith)) (write_loop-Written 0 bytes ioq v room)

  -- `pipe_write` by `self` on a valid pipe on which no producer sleeps, with more bytes than there is
  -- room for, writes as many as there is room for, in order, and then sleeps in the middle of the
  -- call: as the sleeping producer with the lock if the lock was free or its own, and else on the
  -- lock. Its bound takes the free place for room.
  pub pipe_write-SleepsAfter :
      (bytes : List ℕ) (ioq : IoQueue) (k : ℕ)
      → IsValid ioq
      → ioq.producer ≡ none
      → length (contents ioq) + k ≡ capacity
      → k < length bytes
      → SleepsAfter self k (take k bytes) ioq (pipe_write self bytes ioq)
  unfolding pipe_write
  pipe_write-SleepsAfter bytes ioq k v vacant room h =
      subst (λ l. SleepsAfter self k l ioq (write_loop self 0 (take size bytes) ioq))
        (take-take k size bytes (omega (arith, size-le.0)))
        (rw zero-add at
          (write_loop-SleepsAfter 0 (take size bytes) ioq k v vacant room (more size-le)))
    where
      left : ℕ
      left = bufsize - ioq_length ioq

      size : ℕ
      size = if ltb (length bytes) left then length bytes else left

      size-le : (k < size) × (size ≤ length bytes)
      size-le = ground (arith, length-contents ioq)

      more : (k < size) × (size ≤ length bytes) → k < length (take size bytes)
      more le = omega (arith, length-take size bytes le.1)
