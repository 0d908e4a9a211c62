-- ===== src/Status.antt =====
-- gRPC status codes (`tonic::Status`), without the message texts.
pub data Status : Type 0 where
  invalid_argument deadline_exceeded not_found resource_exhausted : Status
  aborted out_of_range unimplemented internal unavailable : Status
