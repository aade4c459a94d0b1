-- ===== src/Program/Link/Cycle/Runs.antt =====
-- Which handlers run to their end, and on which socket.
use epic_miner.Common.{true, not, ◌&&◌, ◌≡◌, ◌∙◌, ◌⊎◌, List, some, All}
use epic_miner.Net.Send.{Net}
use epic_miner.Program.Link.{Link, Out, LinkReaction}

-- A handler that ends.
abbrev pub Runs : LinkReaction → Type 0
Runs r = (l : Link) × (outs : List Out) × (r ≡ some (l, outs))

-- r_shutdown is in use only while the connection is shut down.
abbrev Fit : Net → Type 0
Fit n = n.closing ≡ true → n.shutting_down ≡ true
