-- ===== src/Console/Input/Tests.antt =====
-- A terminal that is opened, gives a key, and ends.
use epic_miner.Common.{◌≡◌, refl, true, false, [], ◌∷◌}
use epic_miner.Common.Int.{pos, negsuc}
use epic_miner.Console.Input.{
  uv_tty, other_handle, uv_tty_init, uv_tty_set_mode, uv_tty_reset_mode, uv_read_start, uv_close,
  on_key_pressed, init_console, close, on_read,
}

session :
    (init_console true uv_tty true false
      ≡ ((true, uv_tty_init ∷ uv_tty_set_mode ∷ uv_read_start ∷ []), true))
    × (init_console true other_handle true false ≡ ((false, []), false))
    × (on_read (pos 1) 104 true ≡ (true, on_key_pressed 104 ∷ []))
    × (on_read (negsuc 0) 0 true ≡ (false, uv_tty_reset_mode ∷ uv_close ∷ []))
    × (close false ≡ (false, []))
unfolding init_console on_read close
session = (refl, refl, refl, refl, refl)
