-- ===== src/Messages/Tests.antt =====
-- IoBuffer and the messages at concrete bytes.
use neptun.Common.{replicate}
use neptun.Io.{Span}

abbrev zeros : Span
zeros = replicate 14 0
