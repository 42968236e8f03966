-- ===== src/Http.antt =====
-- What the handlers of api/v1 work with: requests, responses, and the handler monad.
pub mod Messages
pub mod Handler
