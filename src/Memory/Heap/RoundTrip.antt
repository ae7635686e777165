-- ===== src/Memory/Heap/RoundTrip.antt =====
-- `sys_free` after `sys_malloc` (sparrow/kernel/memory.c), for a block of up to 1024 bytes.
use sparrow_os.Common.{
  ℕ, ◌^◌, ◌<◌, ◌≤◌, ◌≡◌, ◌≢◌, inl, inr, refl, sym, ap, subst, ◌∙◌, true, false, ◌||◌, some, List,
  [], ◌∷◌, ◌++◌, length, set, arith, leb, ◌==◌, if◌then◌else◌, add32, sub32, done, Bool-cases,
  eq-true, eq_self, length-set, get_or-set_self, get_or-set_ne,
}
use sparrow_os.Memory.{MemBlockDesc, block2arena}
use sparrow_os.Memory.Pages.{PoolFlags, pf_kernel, pf_user, Arena, KernelMemory, pool_of}
use sparrow_os.Memory.Heap.{descs_of, kind_of, own_pool, find_kind, sys_malloc, sys_free}
use sparrow_os.Memory.Heap.Kinds.{HasSizes, find_kind-smallest}
use sparrow_os.Memory.Heap.Blocks.{took, gave, sys_malloc-took, sys_free-gave}

abbrev with_cnt : Arena → ℕ → Arena
with_cnt h n = record h { cnt = n }

-- The free lists of a change of the kinds.
module _ (pf : PoolFlags) (i b : ℕ) (xs : List ℕ) (m : KernelMemory) where
  descs_of-took :
      descs_of pf (took pf i b xs m)
      ≡ set (descs_of pf m) i (record (kind_of (descs_of pf m) i) { free_list = xs })
  descs_of-took =
      elim pf
        as (λ pf.
          descs_of pf (took pf i b xs m)
          ≡ set (descs_of pf m) i (record (kind_of (descs_of pf m) i) { free_list = xs })) [
            | pf_kernel ↦ refl
            | pf_user ↦ refl
          ]

  descs_of-gave :
      descs_of pf (gave pf i b m)
      ≡ set (descs_of pf m) i (record (kind_of (descs_of pf m) i) {
        free_list = (kind_of (descs_of pf m) i).free_list ++ b ∷ [];
      })
  descs_of-gave =
      elim pf
        as (λ pf.
          descs_of pf (gave pf i b m)
          ≡ set (descs_of pf m) i (record (kind_of (descs_of pf m) i) {
            free_list = (kind_of (descs_of pf m) i).free_list ++ b ∷ [];
          })) [ pf_kernel ↦ refl | pf_user ↦ refl ]

  pgdir-took : (took pf i b xs m).pgdir ≡ m.pgdir
  pgdir-took = elim pf as (λ pf. (took pf i b xs m).pgdir ≡ m.pgdir) [
    | pf_kernel ↦ refl
    | pf_user ↦ refl
  ]

  took_at :
      (took pf i b xs m).arenas (block2arena b)
      ≡ with_cnt (m.arenas (block2arena b)) (sub32 (m.arenas (block2arena b)).cnt 1)
  took_at = rw (eq_self (block2arena b)) refl

  took_other : (q : ℕ) → (q == block2arena b) ≡ false → (took pf i b xs m).arenas q ≡ m.arenas q
  took_other q n = elim pf as (λ pf. (took pf i b xs m).arenas q ≡ m.arenas q) [
    | pf_kernel ↦ rw n refl
    | pf_user ↦ rw n refl
  ]

  gave_at :
      (gave pf i b m).arenas (block2arena b)
      ≡ with_cnt (m.arenas (block2arena b)) (add32 (m.arenas (block2arena b)).cnt 1)
  gave_at = rw (eq_self (block2arena b)) refl

  gave_other : (q : ℕ) → (q == block2arena b) ≡ false → (gave pf i b m).arenas q ≡ m.arenas q
  gave_other q n = elim pf as (λ pf. (gave pf i b m).arenas q ≡ m.arenas q) [
    | pf_kernel ↦ rw n refl
    | pf_user ↦ rw n refl
  ]

-- After both calls: the block is the last of its free list, and everything else of the heap is as
-- in `m`.
pub record GivenBack (pf : PoolFlags) (i b : ℕ) (xs : List ℕ) (m m' : KernelMemory) : Type 0 where
  pub list : (kind_of (descs_of pf m') i).free_list ≡ xs ++ b ∷ []
  pub kinds : (j : ℕ) → i ≢ j → kind_of (descs_of pf m') j ≡ kind_of (descs_of pf m) j
  pub arenas : (q : ℕ) → m'.arenas q ≡ m.arenas q

-- The count of an arena goes down and up again.
count_back : (h : Arena) → 0 < h.cnt → h.cnt < 2 ^ 32 → add32 (sub32 h.cnt 1) 1 ≡ h.cnt
count_back h pos small = omega arith

GivenBack-lem :
    (pf : PoolFlags) (i b : ℕ) (xs : List ℕ) (m : KernelMemory)
    → i < length (descs_of pf m)
    → 0 < (m.arenas (block2arena b)).cnt
    → (m.arenas (block2arena b)).cnt < 2 ^ 32
    → GivenBack pf i b xs m (gave pf i b (took pf i b xs m))
GivenBack-lem pf i b xs m l pos small =
    let t = took pf i b xs m in
    let t' = gave pf i b t in
    let a = block2arena b in
    let none_kind : MemBlockDesc = record {
      block_size = 0;
      blocks_per_arena = 0;
      free_list = [];
    } in
    let d = descs_of-took pf i b xs m in
    let d' = descs_of-gave pf i b xs t in
    let size : i < length (descs_of pf t) =
      subst (λ n. i < n) (sym (ap length d ∙ length-set (descs_of pf m) i _)) l in
    let kept : (kind_of (descs_of pf t) i).free_list ≡ xs =
      ap (λ ds. (kind_of ds i).free_list) d
      ∙ ap (λ k. k.free_list) (get_or-set_self (descs_of pf m) i _ none_kind l) in
    record {
      list =
          ap (λ ds. (kind_of ds i).free_list) d'
          ∙ ap (λ k. k.free_list) (get_or-set_self (descs_of pf t) i _ none_kind size)
          ∙ ap (λ ys. ys ++ b ∷ []) kept;
      kinds = λ j n.
          ap (λ ds. kind_of ds j) d'
          ∙ get_or-set_ne (descs_of pf t) i j _ none_kind n
          ∙ ap (λ ds. kind_of ds j) d
          ∙ get_or-set_ne (descs_of pf m) i j _ none_kind n;
      arenas = λ q. elim (Bool-cases (q == a)) [
        | inr other ↦ gave_other pf i b xs t q other ∙ took_other pf i b xs m q other
        | inl same ↦
            let e : q ≡ a = eq-true q a same in
            ap t'.arenas e
            ∙ gave_at pf i b xs t
            ∙ ap (λ h. with_cnt h (add32 h.cnt 1)) (took_at pf i b xs m)
            ∙ ap (with_cnt (m.arenas a)) (count_back (m.arenas a) pos small)
            ∙ ap m.arenas (sym e)
      ];
    }

-- Where the first block on the free list of the kind that `find_kind` chooses is `b`, with an arena
-- of that kind of which some but not all blocks are free, a request from 1 to 1024 bytes and below
-- the size of the pool gets `b`, and the blocks of the kind hold the request. `sys_free` of `b`
-- then puts it at the end of the free list, and all other free lists and every header of an arena
-- are as before both calls.
pub sys_free-sys_malloc :
    (pf : PoolFlags) (size b : ℕ) (xs : List ℕ) (m : KernelMemory)
    → own_pool m ≡ pf
    → HasSizes (descs_of pf m)
    → 0 < size
    → size ≤ 1024
    → size < (pool_of pf m).pool_size
    → (m.pgdir || leb 0xc0100000 b) ≡ true
    → 0 < b
    → let i = find_kind (descs_of pf m) size 7 0 in
      let header = m.arenas (block2arena b) in
      (kind_of (descs_of pf m) i).free_list ≡ b ∷ xs
      → header.desc ≡ some i
      → 0 < header.cnt
      → header.cnt < (kind_of (descs_of pf m) i).blocks_per_arena
      → (kind_of (descs_of pf m) i).blocks_per_arena < 2 ^ 32
      → (size ≤ (kind_of (descs_of pf m) i).block_size)
        × ((m' : KernelMemory) × (sys_malloc size m ≡ done (b, m'))
            × ((m'' : KernelMemory) × (sys_free b m' ≡ done m'') × GivenBack pf i b xs m m''))
sys_free-sys_malloc pf size b xs m own h pos small within heap high list d cnt more word =
    let i = find_kind (descs_of pf m) size 7 0 in
    let a = block2arena b in
    let (below, fits, best) = find_kind-smallest (descs_of pf m) size h small in
    let l : i < length (descs_of pf m) = omega (arith, h.count) in
    let t = took pf i b xs m in
    let dir = pgdir-took pf i b xs m in
    let at = took_at pf i b xs m in
    let back = count_back (m.arenas a) cnt (omega arith) in
    let none_kind : MemBlockDesc = record {
      block_size = 0;
      blocks_per_arena = 0;
      free_list = [];
    } in
    let same_blocks : (kind_of (descs_of pf t) i).blocks_per_arena
        ≡ (kind_of (descs_of pf m) i).blocks_per_arena =
      ap (λ ds. (kind_of ds i).blocks_per_arena) (descs_of-took pf i b xs m)
      ∙ ap (λ k. k.blocks_per_arena) (get_or-set_self (descs_of pf m) i _ none_kind l) in
    let open_arena : (add32 (t.arenas a).cnt 1 == (kind_of (descs_of pf t) i).blocks_per_arena)
        ≡ false =
      ap (λ c. add32 c 1 == (kind_of (descs_of pf t) i).blocks_per_arena) (ap (λ x. x.cnt) at)
      ∙ ap (λ c. c == (kind_of (descs_of pf t) i).blocks_per_arena) back
      ∙ ap (λ n. (m.arenas a).cnt == n) same_blocks
      ∙ ground arith in
    (
      fits,
      (
        t,
        sys_malloc-took pf size i b xs m own pos small within refl list,
        (
          gave pf i b t,
          sys_free-gave pf i b t (ap (λ p. if p then pf_user else pf_kernel) dir ∙ own) high
              (ap (λ p. p || leb 0xc0100000 b) dir ∙ heap) (ap (λ x. x.desc) at ∙ d) open_arena,
          GivenBack-lem pf i b xs m l cnt (omega arith),
        ),
      ),
    )
