-- ===== src/Net/Cycle.antt =====
-- net_interface.cpp: from the name to the connection, reading, and the end of the connection.
mod Tests
use epic_miner.Common.{
  ℕ, ◌++◌, true, false, List, [], ◌∷◌, Option, none, some, if◌then◌else◌, codes,
}
use epic_miner.Net.Address.{AddrInfo, choose}
use epic_miner.Net.Receive.{Consumer, Drained, consume_loop}
use epic_miner.Net.Send.{
  Net, NetAction, NetReaction, then_do, notify_error, notify_connect, uv_tcp_connect,
  uv_getaddrinfo, uv_read_start, uv_close, do_shutdown, UvError,
}

unfoldable pub do_connect : Net → NetReaction
do_connect n =
    if n.resolving then none else some (record n { resolving = true }, uv_getaddrinfo ∷ [])

-- With rand() = r.
unfoldable pub on_dns_resolved : Net → List AddrInfo → ℕ → NetReaction
on_dns_resolved n res r = elim (choose res r) [
  | none ↦ some (n, notify_error (codes "DNS Error: No IPv4 or IPv6 records") ∷ [])
  | some a ↦
      if n.open_sock
      then none
      else if n.connecting
      then none
      else some (record n { open_sock = true; connecting = true }, uv_tcp_connect a.addr ∷ [])
]

abbrev resolved : Net → NetReaction
resolved n = some (record n { resolving = false }, [])

unfoldable pub on_dns_resolved_st : Net → Option UvError → List AddrInfo → ℕ → NetReaction
unfolding on_dns_resolved
on_dns_resolved_st n none res r = then_do (on_dns_resolved n res r) resolved
on_dns_resolved_st n (some e) res r = then_do (some (n, notify_error e.text ∷ [])) resolved

-- The plain on_connect and on_connect_error.
unfoldable pub on_connnect_st : Net → Option UvError → NetReaction
on_connnect_st n none =
    some (record n { connecting = false }, notify_connect none ∷ uv_read_start ∷ [])
on_connnect_st n (some e) = some (record n { connecting = false }, notify_error e.text ∷ [])

unfoldable pub on_shutdown_st : Net → NetReaction
on_shutdown_st n = some (record n { closing = false }, uv_close ∷ [])

-- What a read does: the consumer's state, and the connection.
pub record Read (S : Type 0) : Type 0 where
  pub owner : S
  pub net : Net
  pub acts : List NetAction

unfoldable pub finish_read : {S : Type 0} → Net → Drained S → Option (Read S)
finish_read n d =
    let n' = record n { received = d.bytes } in
    if d.result
    then some (record { owner = d.state; net = n'; acts = [] })
    else elim (do_shutdown n') [
      | none ↦ none
      | some (n'', acts) ↦ some (record { owner = d.state; net = n''; acts = acts })
    ]

-- on_socket_read_st with nread > 0: `fresh` is what was read behind the bytes in the buffer.
unfoldable pub on_socket_read : {S : Type 0} → Consumer S → S → Net → List ℕ → Option (Read S)
unfolding finish_read
on_socket_read consume s n fresh = elim (consume_loop consume s (n.received ++ fresh)) [
  | none ↦ none
  | some d ↦ finish_read n d
]
