-- ===== src/Memory/Map/Sorting.antt =====
-- SortMemoryMapInPlace of kernel/memory_map.hpp sorts.
use mathlib.Core.List.{Perm}
use mathlib.Core.List.Perm
use min_os.Common.{
  ℕ, zero, suc, ◌≤◌, ◌≡◌, refl, ap, List, [], ◌∷◌, length, All, arith, ltb, Bool-cases, inl, inr,
}
use min_os.Memory.Map.{MemoryDescriptor, swap_if_greater, sort_row, sort_from, sort_memory_map}

abbrev Starts : ℕ → List MemoryDescriptor → Type 0
Starts n l = All (λ (d : MemoryDescriptor). n ≤ d.physical_start) l

-- In the order of `physical_start`.
abbrev pub IsSorted : List MemoryDescriptor → Type 0
IsSorted [] = Unit {0}
IsSorted (d ∷ l) = Starts d.physical_start l × IsSorted l

Starts-mono : (m n : ℕ) (l : List MemoryDescriptor) → m ≤ n → Starts n l → Starts m l
Starts-mono m n [] h a = tt
Starts-mono m n (d ∷ l) h a = (omega (arith, a.0), Starts-mono m n l h a.1)

swap_if_greater-Perm :
    (a b : MemoryDescriptor) (l : List MemoryDescriptor)
    → let (x, y) = swap_if_greater a b in
      Perm (a ∷ b ∷ l) (x ∷ y ∷ l)
      × (x.physical_start ≤ y.physical_start)
      × (x.physical_start ≤ a.physical_start)
unfolding swap_if_greater
swap_if_greater-Perm a b l = elim (Bool-cases (ltb b.physical_start a.physical_start)) [
  | inl e ↦ rw e (Perm.swap _ _ _, ground arith, ground arith)
  | inr e ↦ rw e (Perm.refl _, ground arith, omega arith)
]

-- A row keeps the descriptors, and leaves the least of them in front.
sort_row-perm :
    (a : MemoryDescriptor) (l : List MemoryDescriptor)
    → let (x, r) = sort_row a l in
      Perm (a ∷ l) (x ∷ r) × (x.physical_start ≤ a.physical_start) × Starts x.physical_start r
unfolding sort_row
sort_row-perm a [] = (Perm.refl _, omega arith, tt)
sort_row-perm a (b ∷ l) =
    let (x, y) = swap_if_greater a b in
    let s = swap_if_greater-Perm a b l in
    let p = sort_row-perm x l in
    (
      Perm.trans s.0 (
          Perm.trans (Perm.swap y x l)
            (Perm.trans (Perm.cons y p.0) (Perm.swap (sort_row x l).0 y _))),
      omega (arith, p.1, s.2),
      (omega (arith, p.1, s.1), p.2),
    )

-- A row keeps a lower bound.
sort_row-Starts :
    (n : ℕ) (a : MemoryDescriptor) (l : List MemoryDescriptor)
    → n ≤ a.physical_start
    → Starts n l
    → let (x, r) = sort_row a l in (n ≤ x.physical_start) × Starts n r
unfolding sort_row
sort_row-Starts n a [] h s = (h, tt)
sort_row-Starts n a (b ∷ l) h s =
    let (lo, hi) = bounds in
    let r = sort_row-Starts n (swap_if_greater a b).0 l lo s.1 in (r.0, (hi, r.1))
  where
    bounds :
        (n ≤ (swap_if_greater a b).0.physical_start) × (n ≤ (swap_if_greater a b).1.physical_start)
    bounds = unfold swap_if_greater in ground arith

sort_from-Starts : (n k : ℕ) (l : List MemoryDescriptor) → Starts n l → Starts n (sort_from k l)
unfolding sort_from
sort_from-Starts n zero l s = s
sort_from-Starts n (suc k) [] s = tt
sort_from-Starts n (suc k) (a ∷ l) s =
    let r = sort_row-Starts n a l s.0 s.1 in (r.0, sort_from-Starts n k _ r.1)

length-sort_row :
    (a : MemoryDescriptor) (l : List MemoryDescriptor) → length (sort_row a l).1 ≡ length l
unfolding sort_row
length-sort_row a [] = refl
length-sort_row a (b ∷ l) = ap suc (length-sort_row (swap_if_greater a b).0 l)

sort_from_lem :
    (k : ℕ) (l : List MemoryDescriptor)
    → length l ≤ k
    → Perm l (sort_from k l) × IsSorted (sort_from k l)
unfolding sort_from
sort_from_lem zero [] h = (Perm.refl _, tt)
sort_from_lem zero (a ∷ l) h = absurd (omega arith)
sort_from_lem (suc k) [] h = (Perm.refl _, tt)
sort_from_lem (suc k) (a ∷ l) h =
    let p = sort_row-perm a l in
    let ih = sort_from_lem k (sort_row a l).1 (omega (arith, length-sort_row a l)) in
    (Perm.trans p.0 (Perm.cons _ ih.0), (sort_from-Starts _ k (sort_row a l).1 p.2, ih.1))

-- SortMemoryMapInPlace leaves the same descriptors, in the order of their physical start.
pub sort_memory_map-IsSorted :
    (l : List MemoryDescriptor) → Perm l (sort_memory_map l) × IsSorted (sort_memory_map l)
unfolding sort_memory_map
sort_memory_map-IsSorted l = sort_from_lem (length l) l (omega arith)
