-- ===== src/Errors.antt =====
-- common/errors.h and neptun/error.h.
pub data EncodingError : Type 0 where
  malformed_buffer : EncodingError

pub data NeptunError : Type 0 where
  malformed_packet peer_not_responding lets_connect_rejected : NeptunError
