-- ===== src/Net/Send.antt =====
-- net_interface.hpp and .cpp: the members of net_interface, the four send buffers, and shutdown. What
-- is asked of libuv and of the owner is a list of actions; `none` is a failed assertion, or a write
-- through the null pointer that get_send_buffer gives where all buffers are taken.
pub mod Laws
pub mod Writes
mod Tests
use epic_miner.Common.{
  ℕ, zero, suc, ◌+◌, ◌-◌, Bool, true, false, ◌&&◌, not, List, [], ◌∷◌, ◌++◌, Option, none, some,
  ltb, leb, ◌==◌, if◌then◌else◌, length, take, drop, set, get_elem?, codes, map,
}

-- send_st: `writing` says that r_send.data is set. `active` is not initialised by the constructor.
pub record SendBuf : Type 0 where
  pub bytes : List ℕ
  pub active : Bool
  pub writing : Bool

abbrev pub send_size : ℕ
send_size = 2048

-- `resolving`, `connecting`, `open_sock` and `closing` say that the `data` of r_resolv, r_conn, h_sock
-- and r_shutdown is set; `received` is recv_buf up to recv_pos.
pub record Net : Type 0 where
  pub send_bufs : List SendBuf
  pub received : List ℕ
  pub shutting_down : Bool
  pub resolving : Bool
  pub connecting : Bool
  pub open_sock : Bool
  pub closing : Bool

pub data NetAction : Type 0 where
  notify_error : List ℕ → NetAction
  notify_connect : Option (List ℕ) → NetAction
  notify_close : NetAction
  -- The buffer's index, its bytes, and the length that libuv is told.
  uv_write : ℕ → List ℕ → ℕ → NetAction
  uv_tcp_connect : ℕ → NetAction
  uv_getaddrinfo uv_read_start uv_shutdown uv_close : NetAction

abbrev pub NetReaction : Type 0
NetReaction = Option (Net × List NetAction)

-- One handler after another.
abbrev pub then_do : NetReaction → (Net → NetReaction) → NetReaction
then_do none f = none
then_do (some (n, acts)) f = elim (f n) [ none ↦ none | some (n', more) ↦ some (n', acts ++ more) ]

unfoldable pub do_shutdown : Net → NetReaction
do_shutdown n =
    if n.shutting_down
    then some (n, [])
    else if n.closing
    then none
    else some (record n { shutting_down = true; closing = true }, uv_shutdown ∷ [])

-- The error is reported, then the connection is shut down.
unfoldable pub fail_with : Net → List ℕ → NetReaction
unfolding do_shutdown
fail_with n err = then_do (some (n, notify_error err ∷ [])) do_shutdown

unfoldable pub first_inactive : List SendBuf → Option ℕ
first_inactive [] = none
first_inactive (b ∷ rest) =
    let later = first_inactive rest in
    if b.active then elim later [ none ↦ none | some i ↦ some (suc i) ] else some 0

abbrev pub update_buf : Net → ℕ → (SendBuf → SendBuf) → Net
update_buf n idx f = elim (get_elem? n.send_bufs idx) [
  | none ↦ n
  | some b ↦ record n { send_bufs = set n.send_bufs idx (f b) }
]

unfoldable pub activate : SendBuf → SendBuf
activate b = record b { active = true }

-- `none` is the null pointer; otherwise the buffer's index, and the buffer marked.
unfoldable pub get_send_buffer : Net → Option (ℕ × Net)
unfolding first_inactive activate
get_send_buffer n = elim (first_inactive n.send_bufs) [
  | none ↦ none
  | some idx ↦ some (idx, update_buf n idx activate)
]

unfoldable pub finalize_buf : Net → ℕ → ℕ → SendBuf → NetReaction
finalize_buf n idx len b =
    if not b.active
    then none
    else if len == 0
    then some (record n { send_bufs = set n.send_bufs idx (record b { active = false }) }, [])
    else if b.writing
    then none
    else some (
      record n { send_bufs = set n.send_bufs idx (record b { writing = true }) },
      uv_write idx b.bytes len ∷ [],
    )

unfoldable pub finalize_socket_write : Net → ℕ → ℕ → NetReaction
unfolding finalize_buf
finalize_socket_write n idx len = elim (get_elem? n.send_bufs idx) [
  | none ↦ none
  | some b ↦ finalize_buf n idx len b
]

-- memcpy to the front of the buffer.
unfoldable pub fill_buf : List ℕ → SendBuf → SendBuf
fill_buf text b = record b { bytes = text ++ drop (length text) b.bytes }

unfoldable pub do_socket_write : Net → List ℕ → NetReaction
unfolding get_send_buffer fill_buf finalize_socket_write fail_with
do_socket_write n text = elim (get_send_buffer n) [
  | none ↦ fail_with n (codes "Limit of 4 concurrent sends exceeded!")
  | some (idx, n') ↦
      if ltb send_size (length text)
      then fail_with n' (codes "Buffer overflow on send!")
      else finalize_socket_write (update_buf n' idx (fill_buf text)) idx (length text)
]

-- get_send_buffer, snprintf into it, finalize_socket_write, as the pool calls them. snprintf cuts the
-- text to the buffer, and returns the length of the whole text.
unfoldable pub send_formatted : Net → List ℕ → NetReaction
unfolding get_send_buffer fill_buf finalize_socket_write
send_formatted n text = elim (get_send_buffer n) [
  | none ↦ none
  | some (idx, n') ↦
      finalize_socket_write (update_buf n' idx (fill_buf (take (send_size - 1) text ++ 0 ∷ []))) idx
        (length text)
]

pub complete_buf : SendBuf → SendBuf
complete_buf b = record b { writing = false; active = false }

unfoldable pub on_socket_write_complete : Net → ℕ → NetReaction
unfolding complete_buf
on_socket_write_complete n idx = elim (get_elem? n.send_bufs idx) [
  | none ↦ none
  | some b ↦
      if not b.active
      then none
      else some (record n { send_bufs = set n.send_bufs idx (complete_buf b) }, [])
]

-- A libuv status other than success: whether it is UV_EOF, and the text of uv_strerror_r.
pub record UvError : Type 0 where
  pub is_eof : Bool
  pub text : List ℕ

unfoldable pub on_socket_error : Net → UvError → NetReaction
unfolding do_shutdown fail_with
on_socket_error n e = if e.is_eof && not n.shutting_down then do_shutdown n else fail_with n e.text

-- The write callback for buffer `idx`; `none` is status 0.
unfoldable pub on_socket_write_st : Net → ℕ → Option UvError → NetReaction
unfolding on_socket_write_complete on_socket_error
on_socket_write_st n idx none = on_socket_write_complete n idx
on_socket_write_st n idx (some e) = on_socket_error n e

unfoldable pub deactivate : SendBuf → SendBuf
deactivate b = record b { active = false }

unfoldable pub on_socket_closed : Net → NetReaction
unfolding deactivate
on_socket_closed n = some (
  record n {
    open_sock = false;
    received = [];
    send_bufs = map deactivate n.send_bufs;
    shutting_down = false;
  },
  notify_close ∷ [],
)
