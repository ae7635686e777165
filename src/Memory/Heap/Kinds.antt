-- ===== src/Memory/Heap/Kinds.antt =====
-- The kind of blocks that `sys_malloc` of sparrow/kernel/memory.c chooses.
use sparrow_os.Common.{
  ℕ, zero, suc, ◌+◌, ◌*◌, ◌^◌, ◌<◌, ◌≤◌, ◌≡◌, inl, inr, refl, sym, subst, Bool, true, List, length,
  arith, leb, ltb, ◌==◌, Bool-cases, ltb→lt, leb→le, eq-true, holds_below, test_of_holds_below,
}
use sparrow_os.Memory.{MemBlockDesc, init_descs, block_desc_init}
use sparrow_os.Memory.Heap.{kind_of, find_kind}

-- `j` is the first kind from `i` on whose blocks hold `size` bytes, or `i + left`.
record FirstFit (ds : List MemBlockDesc) (size left i j : ℕ) : Type 0 where
  pub from : i ≤ j
  pub within : j ≤ i + left
  pub holds : j < i + left → size ≤ (kind_of ds j).block_size
  pub first : (k : ℕ) → i ≤ k → k < j → (kind_of ds k).block_size < size

find_kind-FirstFit :
    (ds : List MemBlockDesc) (size left i : ℕ) → FirstFit ds size left i (find_kind ds size left i)
unfolding find_kind
find_kind-FirstFit ds size zero i = record {
  from = omega arith;
  within = omega arith;
  holds = λ l. absurd (omega arith);
  first = λ k a b. absurd (omega arith);
}
find_kind-FirstFit ds size (suc left) i = elim (Bool-cases (leb size (kind_of ds i).block_size)) [
  | inl fits ↦ rw fits (record {
    from = omega arith;
    within = omega arith;
    holds = λ l. leb→le _ _ fits;
    first = λ k a b. absurd (omega arith);
  })
  | inr larger ↦
      let r = find_kind-FirstFit ds size left (i + 1) in
      rw larger (record {
        from = omega (arith, r.from);
        within = omega (arith, r.within);
        holds = λ l. r.holds (omega arith);
        first = λ k a b. elim (Bool-cases (k == i)) [
          | inl same ↦
              let e : k ≡ i = eq-true k i same in
              subst (λ x. (kind_of ds x).block_size < size) (sym e) (ground arith)
          | inr other ↦ r.first k (ground arith) b
        ];
      })
]

-- The kinds with the sizes of `block_desc_init`, whatever is on their free lists.
pub record HasSizes (ds : List MemBlockDesc) : Type 0 where
  pub count : length ds ≡ 7
  pub size : (i : ℕ) → i < 7 → (kind_of ds i).block_size ≡ 16 * 2 ^ i

-- For a request of up to 1024 bytes the loop ends at one of the 7 kinds, whose blocks hold the
-- request, and no smaller kind does.
pub find_kind-smallest :
    (ds : List MemBlockDesc) (size : ℕ)
    → HasSizes ds
    → size ≤ 1024
    → let i = find_kind ds size 7 0 in
      (i < 7)
      × (size ≤ (kind_of ds i).block_size)
      × ((k : ℕ) → k < i → (kind_of ds k).block_size < size)
find_kind-smallest ds size h small =
    let i = find_kind ds size 7 0 in
    let r = find_kind-FirstFit ds size 7 0 in
    let below : i < 7 = elim (Bool-cases (ltb i 7)) [
      | inl less ↦ ltb→lt i 7 less
      | inr more ↦
          let last = r.first 6 (omega arith) (ground (arith, r.within)) in
          let e : (kind_of ds 6).block_size ≡ 1024 = h.size 6 (omega arith) in absurd (omega arith)
    ] in
    (below, r.holds below, λ k l. r.first k (omega arith) l)

abbrev sizes_fit : ℕ → Bool
sizes_fit i = (kind_of block_desc_init i).block_size == 16 * 2 ^ i

sizes_table : holds_below sizes_fit 7 ≡ true
unfolding holds_below block_desc_init init_descs
sizes_table = refl

-- `block_desc_init` makes 7 kinds, of 16, 32, ..., 1024 bytes.
pub block_desc_init-HasSizes : HasSizes block_desc_init
unfolding block_desc_init init_descs
block_desc_init-HasSizes = record {
  count = refl;
  size = λ i l. eq-true _ _ (test_of_holds_below sizes_fit i 7 l sizes_table);
}
