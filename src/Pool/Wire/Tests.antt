-- ===== src/Pool/Wire/Tests.antt =====
-- The texts of a login and of a share.
use epic_miner.Common.{◌≡◌, refl, [], ◌∷◌, codes, c_str, replicate, ◌++◌}
use epic_miner.Misc.Hex.{bin2hex, hf_bin2hex}
use epic_miner.Pool.Fill.{store_le}
use epic_miner.Pool.Wire.{decimal_loop, decimal, login_text, submit_text}

decimal_runs : decimal 4_294_967_295 ≡ codes "4294967295"
unfolding decimal decimal_loop
decimal_runs = refl

login_runs :
    login_text (codes "user") (codes "pass") [] 10
    ≡ codes
        "{\"method\":\"login\",\"params\":{\"login\":\"user\",\"pass\":\"pass\",\"rigid\":\"\",\"agent\":\"epic_miner\"},\"id\":10}\n"
unfolding login_text decimal decimal_loop c_str
login_runs = refl

submit_runs :
    submit_text
      (codes "m1")
      (record {
        id = codes "j1" ++ 0 ∷ 0 ∷ [];
        nonce = 0x4000;
        res_hash = record { bytes = replicate 32 0xab };
        miner_id = 0;
      })
      7
    ≡ codes
        "{\"method\":\"submit\",\"params\":{\"id\":\"m1\",\"job_id\":\"j1\",\"nonce\":\"00400000\",\"result\":\"abababababababababababababababababababababababababababababababab\"},\"id\":7}\n"
unfolding submit_text decimal decimal_loop c_str bin2hex hf_bin2hex store_le
submit_runs = refl
