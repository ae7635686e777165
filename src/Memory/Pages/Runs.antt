-- ===== src/Memory/Pages/Runs.antt =====
-- Runs of virtual pages (sparrow/kernel/memory.c): the loops over `bitmap_set`, and `vaddr_get`.
use sparrow_os.Common.{
  ℕ, zero, suc, ◌+◌, ◌^◌, ◌<◌, ◌≤◌, ◌≡◌, ◌⊎◌, inl, inr, refl, ap, ◌∙◌, Bool, some, arith, ◌==◌,
  if◌then◌else◌, add32, done, Bool-cases,
}
use sparrow_os.Bitmap.{Bitmap, bitmap_set}
use sparrow_os.Bitmap.View.{used, IsBytes, bitmap_set-used}
use sparrow_os.Memory.Pages.{set_run}

-- `map'` is `map` with the bits `i`, ..., `i + n - 1` set to `b`.
pub record RunSet (map : Bitmap) (n i : ℕ) (b : Bool) (map' : Bitmap) : Type 0 where
  pub bytes : IsBytes map'
  pub len : map'.btmp_bytes_len ≡ map.btmp_bytes_len
  pub inside : (j : ℕ) → i ≤ j → j < i + n → used map' j ≡ b
  pub outside : (j : ℕ) → j < i ⊎ (i + n ≤ j) → used map' j ≡ used map j

set_run_step :
    (n i v : ℕ) (map map' : Bitmap)
    → bitmap_set map i v ≡ some map'
    → set_run (suc n) i v map ≡ set_run n (add32 i 1) v map'
unfolding set_run
set_run_step n i v map map' s = rw s refl

RunSet-step :
    (map map1 map' : Bitmap) (n i v : ℕ)
    → map1.btmp_bytes_len ≡ map.btmp_bytes_len
    → ((j : ℕ) → used map1 j ≡ (if i == j then v == 1 else used map j))
    → RunSet map1 n (i + 1) (v == 1) map'
    → RunSet map (suc n) i (v == 1) map'
RunSet-step map map1 map' n i v len bits r = record {
  bytes = r.bytes;
  len = r.len ∙ len;
  inside = λ j a b. elim (Bool-cases (i == j)) [
    | inl same ↦ r.outside j (inl (ground arith)) ∙ bits j ∙ rw same refl
    | inr other ↦ r.inside j (ground arith) (ground arith)
  ];
  outside = λ j o. r.outside j (ground arith) ∙ bits j ∙ ground arith;
}

pub set_run-RunSet :
    (n i v : ℕ) (map : Bitmap)
    → IsBytes map
    → v < 2
    → i + n < 2 ^ 32
    → (map' : Bitmap) × (set_run n i v map ≡ done map') × RunSet map n i (v == 1) map'
unfolding set_run
set_run-RunSet zero i v map bytes small fits = (
  map,
  refl,
  record {
    bytes = bytes;
    len = refl;
    inside = λ j a b. absurd (omega arith);
    outside = λ j o. refl;
  },
)
set_run-RunSet (suc n) i v map bytes small fits =
    let (map1, s, bytes1, len, bits) = bitmap_set-used map i v bytes small in
    let (map', e, r) = set_run-RunSet n (i + 1) v map1 bytes1 small (omega arith) in
    let next : add32 i 1 ≡ i + 1 = omega arith in
    (
      map',
      set_run_step n i v map map1 s ∙ ap (λ k. set_run n k v map1) next ∙ e,
      RunSet-step map map1 map' n i v len bits r,
    )
