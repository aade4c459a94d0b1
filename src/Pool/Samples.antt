-- ===== src/Pool/Samples.antt =====
-- A pool with a job and one waiting call, for the tests.
use epic_miner.Common.{false, [], replicate, codes}
use epic_miner.Common.Int.{pos}
use epic_miner.Vector32.{V32}
use epic_miner.Job.{PowType, PoolJob, MinerResult}
use epic_miner.Pool.Calls.{CallMapping, CallTable, invalid}
use epic_miner.Pool.State.{Pool, PoolState}

abbrev pub zero_vector : V32
zero_vector = record { bytes = replicate 32 0 }

abbrev pub sample_job : PoolJob
sample_job = record {
  id = replicate 64 0;
  blob = replicate 512 0;
  randomx_seed = zero_vector;
  height = 700_000;
  blob_len = 76;
  nonce_pos = 72;
  target = 65_535;
  nonce = 0;
  pow = PowType.randomx;
}

abbrev pub free_call : CallMapping
free_call = record { call_id = 0; call = invalid; time_made = 0; miner_id = 0 }

abbrev pub sample_calls : CallTable
sample_calls = record { g_call_id = 1; call_map = replicate 8 free_call }

abbrev pub sample_pool : Pool
sample_pool = record {
  pool_id = 0;
  state = PoolState.has_job;
  tls = false;
  hostname = codes "pool:3333";
  pool_miner_id = codes "m1";
  username = codes "user";
  password = codes "pass";
  rigid = [];
  tls_fp = [];
  last_connect_attempt = 0;
  my_job = sample_job;
  calls = sample_calls;
  ping_call_id = 0;
  ping_timestamp = pos 0;
}

abbrev pub sample_result : MinerResult
sample_result = record { id = replicate 64 0; nonce = 16384; res_hash = zero_vector; miner_id = 1 }
