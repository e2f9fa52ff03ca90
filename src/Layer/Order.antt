-- ===== src/Layer/Order.antt =====
-- The height that UpDown of kernel/layer.cpp gives a layer, and the order of the others.
use min_os.Common.{
  ℕ, zero, suc, ◌+◌, ◌-◌, ◌≤◌, ◌<◌, ◌≡◌, ◌⊎◌, ◌∙◌, inl, inr, refl, ap, pos, none, some, List, [],
  ◌∷◌, ltb, ◌==◌, if◌then◌else◌, length, count, arith, Bool-cases, ==_refl,
}
use min_os.Layer.{
  LayerManager, find_layer, find, erase_at, insert_at, erase_id, hide, place, up_down, get_height,
}

find_layer-found : (xs : List ℕ) (id : ℕ) → 0 < count id xs → find_layer xs id ≡ id
unfolding find_layer
find_layer-found [] id h = absurd (omega arith)
find_layer-found (x ∷ xs) id h = ground (arith, find_layer-found xs id)

-- What std::find says of a stack.
abbrev Found : ℕ → List ℕ → Type 0
Found a xs =
    ((find a xs ≡ none) × (count a xs ≡ 0))
    ⊎ ((i : ℕ) × (find a xs ≡ some i)
        × (count a (erase_at i xs) + 1 ≡ count a xs)
        × (length (erase_at i xs) + 1 ≡ length xs)
        × (erase_id a (erase_at i xs) ≡ erase_id a xs))

find-Found : (a : ℕ) (xs : List ℕ) → Found a xs
unfolding find erase_at erase_id
find-Found a [] = inl (refl, refl)
find-Found a (x ∷ xs) = elim (Bool-cases (x == a)) [
  | inl e ↦ inr (0, rw (find, e) refl, ground arith, omega arith, ground arith)
  | inr ne ↦ elim (find-Found a xs) [
    | inl (f, c) ↦ inl (rw (find, ne, f) refl, ground arith)
    | inr (i, f, c, l, o) ↦
        inr (suc i, rw (find, ne, f) refl, ground arith, omega (arith, l), ground arith)
  ]
]

find-insert_at :
    (i a : ℕ) (xs : List ℕ) → i ≤ length xs → count a xs ≡ 0 → find a (insert_at i a xs) ≡ some i
unfolding find insert_at
find-insert_at zero a xs h c = ground (arith, ==_refl a)
find-insert_at (suc i) a [] h c = absurd (omega arith)
find-insert_at (suc i) a (x ∷ xs) h c = ground (arith, find-insert_at i a xs)

erase_id-insert_at : (i a : ℕ) (xs : List ℕ) → erase_id a (insert_at i a xs) ≡ erase_id a xs
unfolding erase_id insert_at
erase_id-insert_at zero a xs = ground (arith, ==_refl a)
erase_id-insert_at (suc i) a [] = ground (arith, ==_refl a)
erase_id-insert_at (suc i) a (x ∷ xs) = ground (arith, erase_id-insert_at i a xs)

length-insert_at :
    (i a : ℕ) (xs : List ℕ)
    → i ≤ length xs
    → (length (insert_at i a xs) ≡ suc (length xs))
      × (count a (insert_at i a xs) ≡ suc (count a xs))
unfolding insert_at
length-insert_at zero a xs h = (refl, ground (arith, ==_refl a))
length-insert_at (suc i) a [] h = absurd (omega arith)
length-insert_at (suc i) a (x ∷ xs) h =
    let ih = length-insert_at i a xs (omega arith) in (omega (arith, ih.0), ground (arith, ih.1))

-- The heights that UpDown computes, of a hidden layer and of one that is shown.
limited :
    (size height : ℕ)
    → (if ltb size height then size else height) ≡ (if ltb height size then height else size)
limited size height = ground arith

clamped :
    (size height : ℕ)
    → let new_height = if ltb size height then size else height in
      (if new_height == size then new_height - 1 else new_height)
      ≡ (if ltb height size then height else size - 1)
clamped size height = ground arith

-- The layer `id` is one of the manager's, and stands in the stack at most once.
pub record IsShowable (m : LayerManager) (id : ℕ) : Type 0 where
  pub exists : 0 < count id m.layers
  pub once : count id m.stack ≤ 1

place-shown :
    (m : LayerManager) (id height i : ℕ)
    → IsShowable m id
    → find id m.stack ≡ some i
    → place m id height ≡ record m {
      stack =
          insert_at
            (if ltb height (length m.stack) then height else length m.stack - 1)
            id
            (erase_at i m.stack);
    }
unfolding place
place-shown m id height i s f =
    rw (place, find_layer-found m.layers id s.exists, f, find_layer-found m.layers id s.exists)
      (ap (λ k. record m { stack = insert_at k id (erase_at i m.stack) })
        (clamped (length m.stack) height))

place-hidden :
    (m : LayerManager) (id height : ℕ)
    → IsShowable m id
    → find id m.stack ≡ none
    → place m id height ≡ record m {
      stack = insert_at (if ltb height (length m.stack) then height else length m.stack) id m.stack;
    }
unfolding place
place-hidden m id height s f =
    rw (place, find_layer-found m.layers id s.exists, f, find_layer-found m.layers id s.exists)
      (ap (λ k. record m { stack = insert_at k id m.stack }) (limited (length m.stack) height))

-- A layer that is put at `k` in a stack that has it nowhere.
shown-at :
    (m : LayerManager) (id k : ℕ) (xs : List ℕ)
    → 0 < count id m.layers
    → k ≤ length xs
    → count id xs ≡ 0
    → let m' : LayerManager = record m { stack = insert_at k id xs } in
      (length m'.stack ≡ suc (length xs))
      × (get_height m' id ≡ some k)
      × (erase_id id m'.stack ≡ erase_id id xs)
      × IsShowable m' id
unfolding get_height
shown-at m id k xs e h c =
    let size = length-insert_at k id xs h in
    (
      size.0,
      find-insert_at k id xs h c,
      erase_id-insert_at k id xs,
      record { exists = e; once = omega (arith, size.1, c) },
    )

-- UpDown of a layer that exists and stands in the stack once at most, to a height that is not
-- negative, puts it at that height, or on top when the height is beyond the stack; the other
-- layers keep their order, and the layer stands in the stack once at most.
pub up_down-height :
    (m : LayerManager) (id height : ℕ)
    → IsShowable m id
    → let m' = up_down m id (pos height) in
      (top : ℕ) × (length m'.stack ≡ suc top)
      × (get_height m' id ≡ some (if ltb height top then height else top))
      × (erase_id id m'.stack ≡ erase_id id m.stack)
      × IsShowable m' id
unfolding up_down
up_down-height m id height s = elim (find-Found id m.stack) [
  | inl (f, c) ↦
      let (l, h, o, s') =
        shown-at m id (if ltb height (length m.stack) then height else length m.stack) m.stack
          s.exists (ground arith) c in
      rw (place-hidden m id height s f) (length m.stack, l, h, o, s')
  | inr (i, f, c, l', o') ↦
      let k = if ltb height (length m.stack) then height else length m.stack - 1 in
      let (l, h, o, s') =
        shown-at m id k (erase_at i m.stack) s.exists (ground (arith, l'))
          (omega (arith, c, s.once)) in
      rw (place-shown m id height i s f)
        (length (erase_at i m.stack), l, h ∙ ap some (ground (arith, l')), o ∙ o', s')
]

find-absent : (a : ℕ) (xs : List ℕ) → count a xs ≡ 0 → find a xs ≡ none
find-absent a xs c = elim (find-Found a xs) [
  | inl (f, _) ↦ f
  | inr (i, f, d, l, o) ↦ absurd (omega (arith, c, d))
]

module _ (m : LayerManager) (id : ℕ) (exists : 0 < count id m.layers) where
  hide-absent : find id m.stack ≡ none → hide m id ≡ m
  unfolding hide
  hide-absent f = rw (hide, find_layer-found m.layers id exists, f) refl

  hide-present :
      (i : ℕ) → find id m.stack ≡ some i → hide m id ≡ record m { stack = erase_at i m.stack }
  unfolding hide
  hide-present i f = rw (hide, find_layer-found m.layers id exists, f) refl

-- Hide of a layer that exists and stands in the stack once at most takes it out of the stack and
-- leaves the others in their order, and a second Hide changes nothing.
pub hide-hides :
    (m : LayerManager) (id : ℕ)
    → IsShowable m id
    → (get_height (hide m id) id ≡ none)
      × (erase_id id ((hide m id).stack) ≡ erase_id id m.stack)
      × (hide (hide m id) id ≡ hide m id)
unfolding get_height
hide-hides m id s = elim (find-Found id m.stack) [
  | inl (f, c) ↦ rw (hide-absent m id s.exists f, hide-absent m id s.exists f) (f, refl, refl)
  | inr (i, f, c, l, o) ↦
      let m' : LayerManager = record m { stack = erase_at i m.stack } in
      let gone : find id (erase_at i m.stack) ≡ none =
        find-absent id (erase_at i m.stack) (omega (arith, c, s.once)) in
      rw (hide-present m id s.exists i f) (gone, o, hide-absent m' id s.exists gone)
]
