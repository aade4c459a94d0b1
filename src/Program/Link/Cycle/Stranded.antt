-- ===== src/Program/Link/Cycle/Stranded.antt =====
-- A link whose lookup failed.
use epic_miner.Common.{true, false, ◌≡◌}
use epic_miner.Net.Send.{Net}
use epic_miner.Program.Link.{Link}
use epic_miner.Program.Link.Cycle.{World}

-- A shutdown that was asked for without a connection: no callback is owed for it.
record IsStranded (w : World) : Type 0 where
  down : w.link.net.shutting_down ≡ true
  no_shutdown : w.shutdown_pending ≡ false
  no_close : w.close_pending ≡ false
