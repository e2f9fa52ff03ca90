-- ===== src/Message.antt =====
-- kernel/message.hpp: what tasks send one another. An int is its 32-bit two's complement pattern,
-- and the member of the union that is in use is the constructor.
use min_os.Common.{ℕ, List}

pub data LayerOperation : Type 0 where
  move move_relative draw draw_area : LayerOperation

pub data Message : Type 0 where
  interrupt_xhci : Message
  timer_timeout : (timeout value : ℕ) → Message
  key_push : (modifier keycode ascii press : ℕ) → Message
  layer : (op : LayerOperation) → (layer_id x y w h : ℕ) → Message
  layer_finish : Message
  mouse_move : (x y dx dy buttons : ℕ) → Message
  mouse_button : (x y press button : ℕ) → Message
  window_active : (activate : ℕ) → Message
  pipe : List ℕ → Message
  window_close : (layer_id : ℕ) → Message
