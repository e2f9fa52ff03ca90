-- ===== src/Paging/Views.antt =====
-- What a program sees through the page maps of kernel/paging.cpp: the page that an address leads
-- to, by its number below an entry.
use min_os.Common.{
  ℕ, zero, suc, ◌+◌, ◌*◌, ◌/◌, ◌%◌, ◌^◌, ◌<◌, ◌≡◌, refl, Bool, true, false, Option, none, some,
  if◌then◌else◌, arith,
}
use min_os.Memory.{get_bit}
use min_os.Memory.Allocation.{IsValid}
use min_os.Paging.{LinearAddress, address, part, Entry, PageMap, empty_map, Frames}

-- The pages below an entry of level `level + 1`.
abbrev pub span : (level : ℕ) → ℕ
span zero = 1
span (suc level) = span level * 512

-- The number of the page of an address, below an entry of level `level + 1`.
abbrev pub page_number : (level : ℕ) → LinearAddress → ℕ
page_number zero a = 0
page_number (suc level) a = part (suc level) a * span level + page_number level a

-- The parts of an address up to a level are indices of a map.
abbrev pub IsIndexed : (level : ℕ) → LinearAddress → Type 0
IsIndexed zero a = Unit {0}
IsIndexed (suc level) a = (part (suc level) a < 512) × IsIndexed level a

pub address-IsIndexed : (value : ℕ) → IsIndexed 4 (address value)
unfolding address
address-IsIndexed value = omega arith

pub page_number-address : (value : ℕ) → page_number 4 (address value) ≡ value / 2 ^ 12 % 2 ^ 36
unfolding address
page_number-address value = omega arith

-- The frame of a page, and what its entry permits.
pub record Leaf : Type 0 where
  pub frame : ℕ
  pub writable : Bool
  pub user : Bool

-- The page `number` below an entry of level `level + 1`.
abbrev pub see : (level : ℕ) → Entry (PageMap level) → (number : ℕ) → Option Leaf
see zero e number =
    if e.present
    then some (record { frame = e.addr; writable = e.writable; user = e.user })
    else none
see (suc level) e number =
    if e.present then see level (e.child (number / span level)) (number % span level) else none

-- The page `number` of a map of level `level + 1`.
abbrev pub page_at : (level : ℕ) → PageMap (suc level) → (number : ℕ) → Option Leaf
page_at level t number = see level (t (number / span level)) (number % span level)

pub see-empty_map : (level i number : ℕ) → see level (empty_map (suc level) i) number ≡ none
see-empty_map zero i number = refl
see-empty_map (suc level) i number = refl

pub see-absent :
    (level : ℕ) (e : Entry (PageMap level)) (number : ℕ)
    → e.present ≡ false
    → see level e number ≡ none
see-absent zero e number h = rw h refl
see-absent (suc level) e number h = rw h refl

pub span-pos : (level : ℕ) → 0 < span level
span-pos zero = omega arith
span-pos (suc level) = omega (arith, span-pos level)

pub page_number-lt :
    (level : ℕ) (a : LinearAddress) → IsIndexed level a → page_number level a < span level
page_number-lt zero a h = omega arith
page_number-lt (suc level) a h = let below = page_number-lt level a h.1 in grind (arith, below, h.0)

-- A later state of the frames: the allocator is valid, and what was allocated still is and holds
-- the same bytes.
pub record Grown (f f' : Frames) : Type 0 where
  pub valid : IsValid f'.manager
  pub kept : (g : ℕ) → get_bit f.manager g ≡ true → get_bit f'.manager g ≡ true
  pub same : (g : ℕ) → get_bit f.manager g ≡ true → f'.contents g ≡ f.contents g

pub Grown-refl : (f : Frames) → IsValid f.manager → Grown f f
Grown-refl f v = record { valid = v; kept = λ g h. h; same = λ g h. refl }

pub Grown-trans : (f f' f'' : Frames) → Grown f f' → Grown f' f'' → Grown f f''
Grown-trans f f' f'' p q = record {
  valid = q.valid;
  kept = λ g h. q.kept g (p.kept g h);
  same = λ g h. cc (p.same g h, q.same g (p.kept g h));
}

-- A frame that a call has taken from the allocator, and that holds zeros.
pub record IsFresh (f f' : Frames) (frame : ℕ) : Type 0 where
  pub was_free : get_bit f.manager frame ≡ false
  pub is_taken : get_bit f'.manager frame ≡ true
  pub zeros : f'.contents frame ≡ (λ i. 0)

pub IsFresh-Grown :
    (f f' f'' : Frames) (frame : ℕ) → Grown f' f'' → IsFresh f f' frame → IsFresh f f'' frame
IsFresh-Grown f f' f'' frame g v = record {
  was_free = v.was_free;
  is_taken = g.kept frame v.is_taken;
  zeros = cc (g.same frame v.is_taken, v.zeros);
}

pub Grown-IsFresh :
    (f f' f'' : Frames) (frame : ℕ) → Grown f f' → IsFresh f' f'' frame → IsFresh f f'' frame
Grown-IsFresh f f' f'' frame g v = record {
  was_free = ground (arith, g.kept frame, v.was_free);
  is_taken = v.is_taken;
  zeros = v.zeros;
}
