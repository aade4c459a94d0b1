-- ===== src/Pool/Wire.antt =====
-- pool.cpp: the texts of do_login_call and do_send_result. The `%s` of a C string stops at its first
-- NUL; `%u` prints a uint32_t in decimal.
mod Tests
use epic_miner.Common.{
  ℕ, zero, suc, ◌+◌, ◌/◌, ◌%◌, List, [], ◌∷◌, ◌++◌, ltb, if◌then◌else◌, codes, c_str,
}
use epic_miner.Misc.Hex.{bin2hex}
use epic_miner.Job.{MinerResult}
use epic_miner.Pool.Fill.{store_le}

-- The digits of a number in front of a text; ten of them are enough for a uint32_t.
unfoldable pub decimal_loop : ℕ → ℕ → List ℕ → List ℕ
decimal_loop zero x text = text
decimal_loop (suc n) x text =
    let rest = decimal_loop n (x / 10) ((b'0' + x % 10) ∷ text) in
    if ltb x 10 then (b'0' + x % 10) ∷ text else rest

pub decimal : ℕ → List ℕ
unfolding decimal_loop
decimal x = decimal_loop 10 x []

-- snprintf with format_str of do_login_call.
unfoldable pub login_text : List ℕ → List ℕ → List ℕ → ℕ → List ℕ
unfolding decimal
login_text username password rigid call_id =
    codes "{\"method\":\"login\",\"params\":{\"login\":\""
    ++ (c_str username
        ++ (codes "\",\"pass\":\""
            ++ (c_str password
                ++ (codes "\",\"rigid\":\""
                    ++ (c_str rigid
                        ++ (codes "\",\"agent\":\"epic_miner\"},\"id\":"
                            ++ (decimal call_id ++ codes "}\n")))))))

-- sNonce and sResult, then snprintf with format_str of do_send_result.
pub submit_text : List ℕ → MinerResult → ℕ → List ℕ
unfolding decimal
submit_text pool_miner_id res call_id =
    codes "{\"method\":\"submit\",\"params\":{\"id\":\""
    ++ (c_str pool_miner_id
        ++ (codes "\",\"job_id\":\""
            ++ (c_str res.id
                ++ (codes "\",\"nonce\":\""
                    ++ (c_str (bin2hex (store_le 4 res.nonce) 4)
                        ++ (codes "\",\"result\":\""
                            ++ (c_str (bin2hex res.res_hash.bytes 32)
                                ++ (codes "\"},\"id\":" ++ (decimal call_id ++ codes "}\n")))))))))
