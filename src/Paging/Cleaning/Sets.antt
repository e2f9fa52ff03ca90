-- ===== src/Paging/Cleaning/Sets.antt =====
-- The frames that CleanPageMap of kernel/paging.cpp gives back, as a set.
use min_os.Common.{
  ℕ, ◌%◌, ◌^◌, ◌≡◌, ◌⊎◌, inl, inr, refl, ◌∙◌, Bool, true, false, ◌==◌, arith, Bool-cases,
}
use min_os.Error.{success}
use min_os.Memory.{get_bit}
use min_os.Memory.Allocation.{IsValid}
use min_os.Memory.Freeing.{get_bit-free, free-success, free-IsValid}
use min_os.Paging.{Frames}
use min_os.Paging.Cleaning.{free_page_map, free_writable}

-- Exactly the frames of a set have been given back.
pub record Frees (P : ℕ → Type 0) (f g : Frames) : Type 0 where
  pub valid : IsValid g.manager
  pub contents : g.contents ≡ f.contents
  pub freed : (frame : ℕ) → P frame → get_bit g.manager frame ≡ false
  pub fewer : (frame : ℕ) → get_bit f.manager frame ≡ false → get_bit g.manager frame ≡ false
  pub kept : (frame : ℕ) → (P frame → ⊥) → get_bit g.manager frame ≡ get_bit f.manager frame

pub Frees-none :
    (P : ℕ → Type 0) (f : Frames) → IsValid f.manager → ((frame : ℕ) → P frame → ⊥) → Frees P f f
Frees-none P f v empty = record {
  valid = v;
  contents = refl;
  freed = λ frame p. absurd (empty frame p);
  fewer = λ frame h. h;
  kept = λ frame h. refl;
}

pub Frees-trans :
    (P Q R : ℕ → Type 0) (f g h : Frames)
    → ((frame : ℕ) → R frame → P frame ⊎ Q frame)
    → ((frame : ℕ) → P frame → R frame)
    → ((frame : ℕ) → Q frame → R frame)
    → Frees P f g
    → Frees Q g h
    → Frees R f h
Frees-trans P Q R f g h split left right p q = record {
  valid = q.valid;
  contents = q.contents ∙ p.contents;
  freed = λ frame r. elim (split frame r) [
    | inl x ↦ q.fewer frame (p.freed frame x)
    | inr y ↦ q.freed frame y
  ];
  fewer = λ frame e. q.fewer frame (p.fewer frame e);
  kept = λ frame no_r.
      q.kept frame (λ y. no_r (right frame y)) ∙ p.kept frame (λ x. no_r (left frame x));
}

-- The frame of an entry that can be written to.
pub free_writable-Frees :
    (writable : Bool) (addr : ℕ) (f : Frames)
    → IsValid f.manager
    → Frees
        (λ frame. (writable ≡ true) × (frame ≡ addr % 2 ^ 64))
        f
        (free_writable writable addr f).0
      × ((free_writable writable addr f).1 ≡ success)
unfolding free_writable free_page_map
free_writable-Frees false addr f v = (Frees-none _ f v (λ frame p. cc (p.0)), refl)
free_writable-Frees true addr f v = (
  record {
    valid = free-IsValid f.manager addr 1 v;
    contents = refl;
    freed = λ frame p. let e = p.1 in ground (arith, get_bit-free f.manager addr frame v);
    fewer = λ frame e. ground (arith, get_bit-free f.manager addr frame v);
    kept = λ frame other.
        let away : (addr % 2 ^ 64 == frame) ≡ false = elim (Bool-cases (addr % 2 ^ 64 == frame)) [
          | inl e ↦ absurd (other (refl, ground arith))
          | inr e ↦ e
        ] in
        get_bit-free f.manager addr frame v ∙ rw away refl;
  },
  free-success f.manager addr 1,
)
