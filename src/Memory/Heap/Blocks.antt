-- ===== src/Memory/Heap/Blocks.antt =====
-- A block that `sys_malloc` of sparrow/kernel/memory.c takes from a free list, and its way back.
use sparrow_os.Common.{
  ℕ, ◌+◌, ◌-◌, ◌<◌, ◌≤◌, ◌≡◌, refl, ap, ◌∙◌, Bool, true, false, ◌||◌, Option, some, List, [], ◌∷◌,
  ◌++◌, arith, leb, ltb, ◌==◌, add32, sub32, done, ◌>>=◌, lt→ltb,
}
use sparrow_os.Memory.{block2arena}
use sparrow_os.Memory.Pages.{
  PoolFlags, pf_kernel, pf_user, Pool, KernelMemory, pool_of, hold, unhold, clear_words,
}
use sparrow_os.Memory.Heap.{
  descs_of, kind_of, set_arena, set_free_list, own_pool, find_kind, refill, take_block,
  malloc_small, sys_malloc, free_block, free_in, sys_free,
}

-- The lock is held and released around a change of the words, the arenas and the kinds.
held : (p : Pool) → (ltb 0 (p.holds + 1) ≡ true) × (p.holds + 1 - 1 ≡ p.holds)
held p = (ground arith, omega arith)

-- The memory after `take_block`, and after `free_block` where the arena stays.
abbrev pub took : PoolFlags → ℕ → ℕ → List ℕ → KernelMemory → KernelMemory
took pf i b xs m =
    let a = block2arena b in
    set_arena a (record (m.arenas a) { cnt = sub32 (m.arenas a).cnt 1 })
      (clear_words b (kind_of (descs_of pf m) i).block_size (set_free_list pf i xs m))

abbrev pub gave : PoolFlags → ℕ → ℕ → KernelMemory → KernelMemory
gave pf i b m =
    let a = block2arena b in
    set_arena a (record (m.arenas a) { cnt = add32 (m.arenas a).cnt 1 })
      (set_free_list pf i ((kind_of (descs_of pf m) i).free_list ++ b ∷ []) m)

module _ (pf : PoolFlags) (i b : ℕ) (m : KernelMemory) where
  unhold-took : (xs : List ℕ) → unhold pf (took pf i b xs (hold pf m)) ≡ done (took pf i b xs m)
  unfolding unhold hold
  unhold-took xs =
      elim pf as (λ pf. unhold pf (took pf i b xs (hold pf m)) ≡ done (took pf i b xs m)) [
        | pf_kernel ↦ let (t, e) = held m.kernel_pool in rw (t, e) refl
        | pf_user ↦ let (t, e) = held m.user_pool in rw (t, e) refl
      ]

  unhold-gave : unhold pf (gave pf i b (hold pf m)) ≡ done (gave pf i b m)
  unfolding unhold hold
  unhold-gave = elim pf as (λ pf. unhold pf (gave pf i b (hold pf m)) ≡ done (gave pf i b m)) [
    | pf_kernel ↦ let (t, e) = held m.kernel_pool in rw (t, e) refl
    | pf_user ↦ let (t, e) = held m.user_pool in rw (t, e) refl
  ]

  descs_of-hold : descs_of pf (hold pf m) ≡ descs_of pf m
  unfolding hold
  descs_of-hold = elim pf as (λ pf. descs_of pf (hold pf m) ≡ descs_of pf m) [
    | pf_kernel ↦ refl
    | pf_user ↦ refl
  ]

  arenas-hold : (hold pf m).arenas ≡ m.arenas
  unfolding hold
  arenas-hold = elim pf as (λ pf. (hold pf m).arenas ≡ m.arenas) [
    | pf_kernel ↦ refl
    | pf_user ↦ refl
  ]

-- The first block of a free list that is not empty.
take_block_lem :
    (pf : PoolFlags) (i b : ℕ) (xs ys : List ℕ) (m : KernelMemory)
    → ys ≡ b ∷ xs
    → take_block pf i ys m ≡ done (b, took pf i b xs m)
unfolding take_block
take_block_lem pf i b xs ys m e = rw e refl

refill_lem :
    (pf : PoolFlags) (i b : ℕ) (xs ys : List ℕ) (m : KernelMemory)
    → ys ≡ b ∷ xs
    → refill pf i ys m ≡ done (true, m)
unfolding refill
refill_lem pf i b xs ys m e = rw e refl

malloc_small_lem :
    (pf : PoolFlags) (size i b : ℕ) (m m1 m2 : KernelMemory)
    → find_kind (descs_of pf m) size 7 0 ≡ i
    → refill pf i (kind_of (descs_of pf m) i).free_list m ≡ done (true, m)
    → take_block pf i (kind_of (descs_of pf m) i).free_list m ≡ done (b, m1)
    → unhold pf m1 ≡ done m2
    → malloc_small pf size m ≡ done (b, m2)
unfolding malloc_small
malloc_small_lem pf size i b m m1 m2 k r t u = rw (k, r, t, u) refl

malloc_small-took :
    (pf : PoolFlags) (size i b : ℕ) (xs : List ℕ) (m : KernelMemory)
    → find_kind (descs_of pf m) size 7 0 ≡ i
    → (kind_of (descs_of pf m) i).free_list ≡ b ∷ xs
    → malloc_small pf size (hold pf m) ≡ done (b, took pf i b xs m)
malloc_small-took pf size i b xs m k e =
    let d = descs_of-hold pf i b m in
    let list = ap (λ ds. (kind_of ds i).free_list) d ∙ e in
    malloc_small_lem pf size i b (hold pf m) _ _ (ap (λ ds. find_kind ds size 7 0) d ∙ k)
      (refill_lem pf i b xs _ (hold pf m) list) (take_block_lem pf i b xs _ (hold pf m) list)
      (unhold-took pf i b m xs)

-- A request of up to 1024 bytes where a block of its kind is free.
pub sys_malloc-took :
    (pf : PoolFlags) (size i b : ℕ) (xs : List ℕ) (m : KernelMemory)
    → own_pool m ≡ pf
    → 0 < size
    → size ≤ 1024
    → size < (pool_of pf m).pool_size
    → find_kind (descs_of pf m) size 7 0 ≡ i
    → (kind_of (descs_of pf m) i).free_list ≡ b ∷ xs
    → sys_malloc size m ≡ done (b, took pf i b xs m)
unfolding sys_malloc
sys_malloc-took pf size i b xs m own pos small within k e =
    let test : (ltb 1024 size) ≡ false = ground arith in
    rw (own, lt→ltb 0 size pos, lt→ltb size _ within, test) (malloc_small-took pf size i b xs m k e)

free_block-gave :
    (pf : PoolFlags) (i b : ℕ) (m : KernelMemory)
    → (add32 (m.arenas (block2arena b)).cnt 1 == (kind_of (descs_of pf m) i).blocks_per_arena)
      ≡ false
    → free_block pf i b m ≡ done (gave pf i b m)
unfolding free_block
free_block-gave pf i b m h = rw h refl

free_in_lem :
    (pf : PoolFlags) (i b : ℕ) (d : Option ℕ) (large : Bool) (m : KernelMemory)
    → d ≡ some i
    → free_in pf b d large m ≡ free_block pf i b m
unfolding free_in
free_in_lem pf i b d large m e = rw e refl

-- A block that is not the last of its arena to be freed.
pub sys_free-gave :
    (pf : PoolFlags) (i b : ℕ) (m : KernelMemory)
    → own_pool m ≡ pf
    → 0 < b
    → (m.pgdir || leb 0xc0100000 b) ≡ true
    → (m.arenas (block2arena b)).desc ≡ some i
    → (add32 (m.arenas (block2arena b)).cnt 1 == (kind_of (descs_of pf m) i).blocks_per_arena)
      ≡ false
    → sys_free b m ≡ done (gave pf i b m)
unfolding sys_free
sys_free-gave pf i b m own pos heap d more =
    let test : (b == 0) ≡ false = ground arith in
    let same : (add32 ((hold pf m).arenas (block2arena b)).cnt 1
          == (kind_of (descs_of pf (hold pf m)) i).blocks_per_arena)
        ≡ false =
      ap
        (λ f.
          add32 (f (block2arena b)).cnt 1 == (kind_of (descs_of pf (hold pf m)) i).blocks_per_arena)
        (arenas-hold pf i b m)
      ∙ ap (λ ds. add32 (m.arenas (block2arena b)).cnt 1 == (kind_of ds i).blocks_per_arena)
          (descs_of-hold pf i b m)
      ∙ more in
    let freed =
      free_in_lem pf i b (m.arenas (block2arena b)).desc (m.arenas (block2arena b)).large
        (hold pf m) d
      ∙ free_block-gave pf i b (hold pf m) same in
    rw (own, test, heap) (ap (λ o. o >>= unhold pf) freed ∙ unhold-gave pf i b m)
