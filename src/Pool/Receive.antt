-- ===== src/Pool/Receive.antt =====
-- pool.cpp: my_memrchr and net_on_data_recv. The parser is rapidjson's ParseInsitu, a parameter: it
-- is given the text before the NUL, and gives the bytes that it leaves there and the document, or
-- `none` for a parse error.
pub mod Laws
mod Tests
use epic_miner.Common.{
  ℕ, zero, suc, ◌+◌, List, [], ◌∷◌, ◌++◌, Option, none, some, ◌==◌, if◌then◌else◌, codes, get_or,
  take, drop,
}
use epic_miner.Json.{Value, Members, as_object}
use epic_miner.Pool.State.{Pool, Reaction, net_on_error}
use epic_miner.Pool.Messages.{Handled, process_json_doc}

-- `none` is the null pointer.
pub my_memrchr : List ℕ → ℕ → ℕ → Option ℕ
my_memrchr m c zero = none
my_memrchr m c (suc n) = let rest = my_memrchr m c n in if get_or m n 0 == c then some n else rest

-- The bytes of the buffer afterwards, the pool and its actions, and the value returned (`none` for -1).
pub record Received : Type 0 where
  pub buffer : List ℕ
  pub reaction : Reaction
  pub consumed : Option ℕ

unfoldable pub finish : List ℕ → ℕ → Handled → Option Received
finish buffer len none = none
finish buffer len (some (reaction, done)) =
    some
      (record { buffer = buffer; reaction = reaction; consumed = if done then some len else none })

module _ (parse_insitu : List ℕ → List ℕ × Option Value) where
  unfoldable pub receive_line : Pool → List ℕ → ℕ → ℕ → Option Received
  unfolding finish
  receive_line p input stop ts_now =
      let (left, doc) = parse_insitu (take stop input) in
      let buffer = left ++ 0 ∷ drop (stop + 1) input in
      let failed : Option Received = some (record {
        buffer = buffer;
        reaction = net_on_error p (codes "JSON parse error");
        consumed = none;
      }) in
      elim doc [
        | none ↦ failed
        | some v ↦ elim (as_object v) [
          | none ↦ failed
          | some ms ↦ finish buffer (stop + 1) (process_json_doc p ms ts_now)
        ]
      ]

  unfoldable pub net_on_data_recv : Pool → List ℕ → ℕ → ℕ → Option Received
  unfolding receive_line my_memrchr
  net_on_data_recv p input len ts_now = elim (my_memrchr input b'\n' len) [
    | none ↦ some (record { buffer = input; reaction = (p, []); consumed = some 0 })
    | some stop ↦ receive_line p input stop ts_now
  ]
