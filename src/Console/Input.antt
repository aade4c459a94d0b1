-- ===== src/Console/Input.antt =====
-- input_console.hpp and input_console.cpp: the terminal's handle. libuv's calls are a list of actions.
mod Tests
use epic_miner.Common.{
  ℕ, ◌+◌, Bool, true, false, not, ◌||◌, List, [], ◌∷◌, Option, none, some, ltb, ◌==◌, if◌then◌else◌,
}
use epic_miner.Common.Int.{ℤ, pos, negsuc}

pub data HandleType : Type 0 where
  uv_tty uv_named_pipe other_handle : HandleType

pub data TtyAction : Type 0 where
  uv_tty_init uv_tty_set_mode uv_tty_reset_mode uv_read_start uv_close : TtyAction
  on_key_pressed : ℕ → TtyAction

abbrev is_terminal : HandleType → Bool
is_terminal uv_tty = true
is_terminal uv_named_pipe = true
is_terminal other_handle = false

-- The state is console.data: whether it is set. `valid_fd`, `kind` and `readable` are what fileno,
-- uv_guess_handle and uv_is_readable say.
pub init_console : Bool → HandleType → Bool → Bool → (Bool × List TtyAction) × Bool
init_console valid_fd kind readable attached =
    if not valid_fd
    then ((attached, []), false)
    else if not (is_terminal kind)
    then ((attached, []), false)
    else if not readable
    then ((false, uv_tty_init ∷ uv_close ∷ []), false)
    else ((true, uv_tty_init ∷ uv_tty_set_mode ∷ uv_read_start ∷ []), true)

pub close : Bool → Bool × List TtyAction
close attached = if attached then (false, uv_tty_reset_mode ∷ uv_close ∷ []) else (attached, [])

-- `key` is the byte in the buffer, which has room for one.
pub on_read : ℤ → ℕ → Bool → Bool × List TtyAction
unfolding close
on_read (negsuc e) key attached = close attached
on_read (pos n) key attached =
    if n == 1 then (attached, on_key_pressed key ∷ []) else (attached, [])
