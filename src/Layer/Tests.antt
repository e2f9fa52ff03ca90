-- ===== src/Layer/Tests.antt =====
-- Runs of the layers' stack.
use min_os.Common.{ℕ, suc, none, pos, ◌≡◌, some, [], ◌∷◌, ltb, if◌then◌else◌, length, arith}
use min_os.Layer.{LayerManager, up_down, hide, get_height, erase_id}
use min_os.Layer.Order.{IsShowable, up_down-height, hide-hides}

-- Layer 2 is at the back, 1 in the middle and 3 in front; 4 is hidden.
abbrev desk : LayerManager
desk = record { layers = 1 ∷ 2 ∷ 3 ∷ 4 ∷ []; stack = 2 ∷ 1 ∷ 3 ∷ []; latest_id = 4 }

up_down-height_example :
    let m' = up_down desk 2 (pos 7) in
    (top : ℕ) × (length m'.stack ≡ suc top)
    × (get_height m' 2 ≡ some (if ltb 7 top then 7 else top))
    × (erase_id 2 m'.stack ≡ erase_id 2 desk.stack)
    × IsShowable m' 2
up_down-height_example =
    up_down-height desk 2 7 (record { exists = omega arith; once = omega arith })

hidden_layer :
    (get_height (hide desk 1) 1 ≡ none)
    × (erase_id 1 ((hide desk 1).stack) ≡ erase_id 1 desk.stack)
    × (hide (hide desk 1) 1 ≡ hide desk 1)
hidden_layer = hide-hides desk 1 (record { exists = omega arith; once = omega arith })
