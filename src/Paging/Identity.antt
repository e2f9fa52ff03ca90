-- ===== src/Paging/Identity.antt =====
-- SetupIdentityPageTable of kernel/paging.cpp: the first 64 GiB are mapped to themselves in pages of
-- 2 MiB. A table is the function from the index of an entry to its 64 bits; the addresses of the
-- static tables are arguments.
use Prim.Native.Nat.{bit_or}
use native.Mathlib.Nat.{div-add-mod}
use min_os.Common.{
  ℕ, zero, suc, ◌+◌, ◌-◌, ◌*◌, ◌/◌, ◌%◌, ◌^◌, ◌≤◌, ◌<◌, ◌≡◌, inl, inr, refl, ap, sym, ◌∙◌, false,
  ltb, if◌then◌else◌, ◌||◌, put, put_self, put_other, arith, eq_cases,
}
use min_os.Common.Parts.{bit_or-over}

-- kPageSize4K, kPageSize2M, kPageSize1G and kPageDirectoryCount.
abbrev pub page_size_2m : ℕ
page_size_2m = 512 * 4096

abbrev pub page_size_1g : ℕ
page_size_1g = 512 * page_size_2m

abbrev pub page_directory_count : ℕ
page_directory_count = 64

-- The static tables.
pub record Tables : Type 0 where
  pub pml4_table : ℕ → ℕ
  pub pdp_table : ℕ → ℕ
  pub page_directory : ℕ → ℕ → ℕ

-- The inner loop, from `i_pd` on.
unfoldable pub fill_directory : (rounds i_pdpt i_pd : ℕ) → (ℕ → ℕ) → ℕ → ℕ
fill_directory zero i_pdpt i_pd directory = directory
fill_directory (suc rounds) i_pdpt i_pd directory =
    fill_directory rounds i_pdpt (i_pd + 1)
      (put i_pd (bit_or (i_pdpt * page_size_1g + i_pd * page_size_2m) 0x083) directory)

-- The outer loop, from `i_pdpt` on.
unfoldable pub fill_tables : (rounds : ℕ) → (directory_at : ℕ → ℕ) → (i_pdpt : ℕ) → Tables → Tables
unfolding fill_directory
fill_tables zero directory_at i_pdpt t = t
fill_tables (suc rounds) directory_at i_pdpt t =
    fill_tables rounds directory_at (i_pdpt + 1) (record t {
      pdp_table = put i_pdpt (bit_or (directory_at i_pdpt) 0x003) t.pdp_table;
      page_directory =
          put i_pdpt (fill_directory 512 i_pdpt 0 (t.page_directory i_pdpt)) t.page_directory;
    })

-- SetupIdentityPageTable.
unfoldable pub setup_identity_page_table : (pdp_at : ℕ) (directory_at : ℕ → ℕ) → Tables → Tables
unfolding fill_tables
setup_identity_page_table pdp_at directory_at t =
    fill_tables page_directory_count directory_at 0
      (record t { pml4_table = put 0 (bit_or pdp_at 0x0003) t.pml4_table })

fill_directory_lem :
    (rounds i_pdpt i_pd : ℕ) (directory : ℕ → ℕ) (k : ℕ)
    → fill_directory rounds i_pdpt i_pd directory k ≡ (
        if (ltb k i_pd || ltb (i_pd + rounds) (k + 1))
        then directory k
        else bit_or (i_pdpt * page_size_1g + k * page_size_2m) 0x083)
unfolding fill_directory
fill_directory_lem zero i_pdpt i_pd directory k = ground arith
fill_directory_lem (suc rounds) i_pdpt i_pd directory k = ground (
  arith,
  fill_directory_lem rounds i_pdpt (i_pd + 1)
      (put i_pd (bit_or (i_pdpt * page_size_1g + i_pd * page_size_2m) 0x083) directory) k,
)

-- The entries that the outer loop has filled.
fill_tables_lem :
    (rounds : ℕ) (directory_at : ℕ → ℕ) (i_pdpt : ℕ) (t : Tables) (i j : ℕ)
    → j < 512
    → ((fill_tables rounds directory_at i_pdpt t).pml4_table ≡ t.pml4_table)
      × (i < i_pdpt
          → ((fill_tables rounds directory_at i_pdpt t).pdp_table i ≡ t.pdp_table i)
            × ((fill_tables rounds directory_at i_pdpt t).page_directory i ≡ t.page_directory i))
      × (i_pdpt ≤ i
          → i < i_pdpt + rounds
          → ((fill_tables rounds directory_at i_pdpt t).pdp_table i ≡ bit_or (directory_at i) 0x003)
            × ((fill_tables rounds directory_at i_pdpt t).page_directory i j
                ≡ bit_or (i * page_size_1g + j * page_size_2m) 0x083))
unfolding fill_tables
fill_tables_lem zero directory_at i_pdpt t i j h =
    (refl, λ lt. (refl, refl), λ lo hi. absurd (omega arith))
fill_tables_lem (suc rounds) directory_at i_pdpt t i j h =
    let entry = bit_or (directory_at i_pdpt) 0x003 in
    let directory : ℕ → ℕ = fill_directory 512 i_pdpt 0 (t.page_directory i_pdpt) in
    let ih =
      fill_tables_lem rounds directory_at (i_pdpt + 1)
        (record t {
          pdp_table = put i_pdpt entry t.pdp_table;
          page_directory = put i_pdpt directory t.page_directory;
        })
        i j h in
    (
      ih.0,
      λ lt. (
        (ih.1 (omega arith)).0 ∙ put_other i_pdpt i entry t.pdp_table (omega arith),
        (ih.1 (omega arith)).1 ∙ put_other i_pdpt i directory t.page_directory (omega arith),
      ),
      λ lo hi. elim (eq_cases i i_pdpt) [
        | inr other ↦ ih.2 (omega arith) (omega arith)
        | inl same ↦
            let filled : (ltb j 0 || ltb (0 + 512) (j + 1)) ≡ false = ground arith in
            (
              (ih.1 (omega arith)).0 ∙ rw same (put_self i_pdpt entry t.pdp_table),
              ap (λ (d : ℕ → ℕ). d j) (ih.1 (omega arith)).1
                  ∙ rw same (
                      ap (λ (d : ℕ → ℕ). d j) (put_self i_pdpt directory t.page_directory)
                      ∙ fill_directory_lem 512 i_pdpt 0 (t.page_directory i_pdpt) j
                      ∙ rw filled refl),
            )
      ],
    )

-- A flag below 2^k beside an address that is a multiple of it.
bit_or-aligned : (k x flags : ℕ) → x % 2 ^ k ≡ 0 → flags < 2 ^ k → bit_or x flags ≡ x + flags
bit_or-aligned k x flags h lt =
    let whole : x ≡ x / 2 ^ k * 2 ^ k = grind (arith, div-add-mod x (2 ^ k)) in
    ap (λ (y : ℕ). bit_or y flags) whole
    ∙ bit_or-over k flags (x / 2 ^ k) lt
    ∙ ap (λ (y : ℕ). y + flags) (sym whole)

-- The processor's walk for an address: each entry that it reads is present and writable and points to
-- the next table, and the last one is a page of 2 MiB in which the address is itself.
pub record IsIdentity (pdp_at : ℕ) (directory_at : ℕ → ℕ) (t : Tables) (addr : ℕ) : Type 0 where
  pub first : t.pml4_table (addr / 2 ^ 39 % 512) ≡ pdp_at + 3
  pub second : t.pdp_table (addr / 2 ^ 30 % 512) ≡ directory_at (addr / 2 ^ 30 % 512) + 3
  pub last :
      t.page_directory (addr / 2 ^ 30 % 512) (addr / 2 ^ 21 % 512) ≡ (addr - addr % 2 ^ 21) + 0x83

-- SetupIdentityPageTable, with tables that start at pages of 4 KiB, maps every address below 64 GiB
-- to itself.
pub setup_identity_page_table-IsIdentity :
    (pdp_at : ℕ) (directory_at : ℕ → ℕ) (t : Tables) (addr : ℕ)
    → pdp_at % 2 ^ 12 ≡ 0
    → ((i : ℕ) → directory_at i % 2 ^ 12 ≡ 0)
    → addr < 64 * 2 ^ 30
    → IsIdentity pdp_at directory_at (setup_identity_page_table pdp_at directory_at t) addr
unfolding setup_identity_page_table
setup_identity_page_table-IsIdentity pdp_at directory_at t addr pdp directory small =
    let i = addr / 2 ^ 30 % 512 in
    let j = addr / 2 ^ 21 % 512 in
    let filled =
      fill_tables_lem 64 directory_at 0
        (record t { pml4_table = put 0 (bit_or pdp_at 0x0003) t.pml4_table }) i j (omega arith) in
    let here = filled.2 (omega arith) (omega arith) in
    let zeroth : addr / 2 ^ 39 % 512 ≡ 0 = omega arith in
    let base : i * page_size_1g + j * page_size_2m ≡ addr - addr % 2 ^ 21 = omega arith in
    record {
      first =
          ap (λ (table : ℕ → ℕ). table (addr / 2 ^ 39 % 512)) filled.0
          ∙ rw zeroth (bit_or-aligned 12 pdp_at 3 pdp (omega arith));
      second = here.0 ∙ bit_or-aligned 12 (directory_at i) 3 (directory i) (omega arith);
      last =
          here.1
          ∙ bit_or-aligned 21 (i * page_size_1g + j * page_size_2m) 0x83 (omega arith) (omega arith)
          ∙ ap (λ (x : ℕ). x + 0x83) base;
    }
