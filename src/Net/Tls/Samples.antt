-- ===== src/Net/Tls/Samples.antt =====
-- A session whose state is the pending ciphertext: what is written is encrypted to itself.
use epic_miner.Common.{ℕ, true, false, List, [], ◌∷◌, some, length, codes}
use epic_miner.Common.Int.{ℤ, pos, negsuc}
use epic_miner.Net.Send.{Net}
use epic_miner.Net.Tls.{Handshake, ReadRes, OpenSsl, Tls}

-- With what SSL_write returns.
abbrev pub plain_ssl : (List ℕ → List ℕ × ℤ) → OpenSsl (List ℕ)
plain_ssl write = record {
  new_session = some [];
  errors = λ s. (s, codes "no colon");
  do_handshake = λ s. (s, Handshake.finished);
  peer_digest = λ s. some (codes "ZA==");
  pending = λ s. length s;
  bio_read = λ s n. ([], some s);
  bio_write = λ s bytes. (s, some (length bytes));
  ssl_read = λ s n. (s, ReadRes.got (1 ∷ 2 ∷ []));
  ssl_write = λ s text. write text;
  shutdown = λ s. s;
}

abbrev pub echo : OpenSsl (List ℕ)
echo = plain_ssl (λ text. (text, pos (length text)))

abbrev pub broken : OpenSsl (List ℕ)
broken = plain_ssl (λ text. ([], pos 0))

abbrev pub refusing : OpenSsl (List ℕ)
refusing = plain_ssl (λ text. ([], negsuc 0))

abbrev pub quiet_net : Net
quiet_net = record {
  send_bufs = record { bytes = []; active = false; writing = false } ∷ [];
  received = [];
  shutting_down = false;
  resolving = false;
  connecting = false;
  open_sock = true;
  closing = false;
}

abbrev pub with_pending : List ℕ → Tls (List ℕ) ℕ
with_pending ct = record {
  net = quiet_net;
  ssl = some ct;
  handshake_complete = true;
  pt = [];
  owner = 0;
}
