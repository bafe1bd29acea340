-- ===== src/Messages/RejectLetsConnect.antt =====
-- neptun/messages/reject_lets_connect.h
use neptun.Common.{ℕ, Outcome, ok, ◌>>=◌}
use neptun.Io.{Span, first}

abbrev pub k_id : ℕ
k_id = 1

abbrev pub serialized_size : ℕ
serialized_size = 0

unfoldable pub write : Span → Outcome (Span × Span)
write b = do payload ← first b 0; ok (b, payload)
