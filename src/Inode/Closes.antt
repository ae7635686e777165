-- ===== src/Inode/Closes.antt =====
-- `inode_close` of sparrow/fs/inode.c counts an inode down, and drops it with the last close.
use sparrow_os.Common.{
  ℕ, ◌-◌, ◌^◌, ◌<◌, ◌≡◌, inl, inr, refl, sym, ap, subst, ◌∙◌, true, false, some, arith, ◌==◌,
  if◌then◌else◌, sub32, Bool-cases, eq-true,
}
use sparrow_os.LinkedList.View.{elem, Distinct}
use sparrow_os.Inode.{Inode, OpenInodes, find_inode, inode_close, without}
use sparrow_os.Inode.OpenList.{
  opens, opens_of, numbers, IsOpenList, find_inode-changed, numbers-changed, find_inode-some,
}
use sparrow_os.Inode.Recount.{recounted, opens-recounted, recounted-IsOpenList}
use sparrow_os.Inode.Leave.{without-subset, Distinct-without, without_self, find_inode-without}

-- What `inode_close` promises.
pub record ClosesOnce (nr : ℕ) (s s' : OpenInodes) : Type 0 where
  pub counts : (m : ℕ) → opens s' m ≡ (if m == nr then opens s nr - 1 else opens s m)
  pub is_list : IsOpenList s'

module _ (nr p : ℕ) (s : OpenInodes) (found : find_inode s.inodes nr s.open_inodes ≡ some p) where
  close_lem :
      (n : ℕ)
      → sub32 (s.inodes p).i_open_cnts 1 ≡ n
      → inode_close p s ≡ (
          if n == 0
          then record (recounted s nr p n found) { open_inodes = without p s.open_inodes }
          else recounted s nr p n found)
  unfolding inode_close
  close_lem n e = rw e refl

  -- The last one closes it.
  last_closed :
      IsOpenList s
      → opens s nr ≡ 1
      → ClosesOnce nr s
          (record (recounted s nr p 0 found) { open_inodes = without p s.open_inodes })
  last_closed h one =
      let inode : Inode = record (s.inodes p) { i_open_cnts = 0 } in
      let r = recounted s nr p 0 found in
      let number = (find_inode-some s.inodes nr p s.open_inodes found).0 in
      let all = numbers-changed s.inodes p inode refl s.open_inodes in
      let distinct : Distinct (numbers r.inodes s.open_inodes) =
        subst Distinct (sym all) h.distinct in
      let there = find_inode-changed s.inodes p inode refl nr s.open_inodes ∙ found in
      record {
        counts = λ m.
            ap (opens_of r.inodes) (find_inode-without r.inodes nr p m s.open_inodes distinct there)
            ∙ elim (Bool-cases (m == nr)) [
              | inl same ↦ let gone : 0 ≡ opens s nr - 1 = omega arith in rw same gone
              | inr other ↦ rw other (opens-recounted s nr p 0 found m ∙ rw other refl)
            ];
        is_list = record {
          distinct = Distinct-without r.inodes p s.open_inodes distinct;
          positive = λ q on. elim (Bool-cases (q == p)) [
            | inl same ↦
                let out = without_self r.inodes p s.open_inodes distinct in
                let on' : elem p (without p s.open_inodes) ≡ true =
                  subst (λ x. elem x (without p s.open_inodes) ≡ true) (eq-true q p same) on in
                absurd (ground arith)
            | inr other ↦ rw other (h.positive q (without-subset p q s.open_inodes on))
          ];
        };
      }

pub inode_close-ClosesOnce :
    (nr p : ℕ) (s : OpenInodes)
    → IsOpenList s
    → find_inode s.inodes nr s.open_inodes ≡ some p
    → (s.inodes p).i_open_cnts < 2 ^ 32
    → ClosesOnce nr s (inode_close p s)
      × ((inode_close p s).open_inodes
          ≡ (if opens s nr == 1 then without p s.open_inodes else s.open_inodes))
inode_close-ClosesOnce nr p s h found small =
    let own : opens s nr ≡ (s.inodes p).i_open_cnts = ap (opens_of s.inodes) found in
    let pos = h.positive p (find_inode-some s.inodes nr p s.open_inodes found).1 in
    elim (Bool-cases (opens s nr == 1)) [
      | inl last ↦
          let one = eq-true (opens s nr) 1 last in
          let zero_left : sub32 (s.inodes p).i_open_cnts 1 ≡ 0 = omega arith in
          let e : inode_close p s
              ≡ record (recounted s nr p 0 found) { open_inodes = without p s.open_inodes } =
            close_lem nr p s found 0 zero_left in
          rw (e, last) (last_closed nr p s found h one, refl)
      | inr more ↦
          let n = opens s nr - 1 in
          let left : sub32 (s.inodes p).i_open_cnts 1 ≡ n = omega arith in
          let some_left : (n == 0) ≡ false = ground arith in
          let e : inode_close p s ≡ recounted s nr p n found =
            rw (close_lem nr p s found n left, some_left) refl in
          rw (e, more)
            (
              record {
                counts = opens-recounted s nr p n found;
                is_list = recounted-IsOpenList s nr p n found h (ground arith);
              },
              refl,
            )
    ]
