-- ===== src/Layer.antt =====
-- The stack of LayerManager in kernel/layer.cpp: which layers are shown, from back to front.
-- A Layer* is the layer's id, and 0, which no layer has, is nullptr. An iterator is its index, so
-- `new_pos` of UpDown keeps its place when a layer before it is erased, as in a vector. What is
-- drawn, and where the layers stand on the screen, is not modelled.
pub mod Order
mod Tests
use mathlib.Core.Option
use min_os.Common.{
  ℕ, zero, suc, ◌+◌, ◌-◌, ℤ, pos, negsuc, Bool, true, false, Option, none, some, List, [], ◌∷◌,
  ◌++◌, ltb, ◌==◌, if◌then◌else◌, length,
}

pub record LayerManager : Type 0 where
  pub layers : List ℕ
  pub stack : List ℕ
  pub latest_id : ℕ

-- NewLayer: the new layer's id is `latest_id` of the result.
pub new_layer : LayerManager → LayerManager
new_layer m = record m {
  layers = m.layers ++ ((m.latest_id + 1) ∷ []);
  latest_id = m.latest_id + 1;
}

-- FindLayer, from the layers on.
pub find_layer : List ℕ → ℕ → ℕ
find_layer [] id = 0
find_layer (x ∷ xs) id = if x == id then x else find_layer xs id

-- std::find; `none` is end().
pub find : ℕ → List ℕ → Option ℕ
find a [] = none
find a (x ∷ xs) = let rest = find a xs in if x == a then some 0 else Option.map suc rest

pub erase_at : ℕ → List ℕ → List ℕ
erase_at i [] = []
erase_at zero (x ∷ xs) = xs
erase_at (suc i) (x ∷ xs) = x ∷ erase_at i xs

pub insert_at : ℕ → ℕ → List ℕ → List ℕ
insert_at zero a xs = a ∷ xs
insert_at (suc i) a [] = a ∷ []
insert_at (suc i) a (x ∷ xs) = x ∷ insert_at i a xs

-- EraseIf by the id.
pub erase_id : ℕ → List ℕ → List ℕ
erase_id id [] = []
erase_id id (x ∷ xs) = if x == id then erase_id id xs else x ∷ erase_id id xs

pub hide : LayerManager → ℕ → LayerManager
hide m id = elim (find (find_layer m.layers id) m.stack) [
  | none ↦ m
  | some i ↦ record m { stack = erase_at i m.stack }
]

pub remove_layer : LayerManager → ℕ → LayerManager
unfolding hide
remove_layer m id = let m' = hide m id in record m' { layers = erase_id id m'.layers }

-- UpDown to a height that is not negative.
pub place : LayerManager → ℕ → ℕ → LayerManager
place m id height =
    let size = length m.stack in
    let new_height = if ltb size height then size else height in
    let layer = find_layer m.layers id in
    elim (find layer m.stack) [
      | none ↦ record m { stack = insert_at new_height layer m.stack }
      | some old ↦ record m {
        stack =
            insert_at (if new_height == size then new_height - 1 else new_height) layer
              (erase_at old m.stack);
      }
    ]

pub up_down : LayerManager → ℕ → ℤ → LayerManager
unfolding place hide
up_down m id (pos height) = place m id height
up_down m id (negsuc n) = hide m id

-- GetHeight; `none` is -1.
pub get_height : LayerManager → ℕ → Option ℕ
unfolding find
get_height m id = find id m.stack
