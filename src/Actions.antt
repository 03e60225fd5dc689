-- ===== src/Actions.antt =====
-- inc/actions.h and src/actions.c: requests, responses, and what the client prints for a response.
mod Wire
mod Requests
mod Responses
mod Handlers
unfoldable pub use Wire.*
unfoldable pub use Requests.*
unfoldable pub use Responses.*
unfoldable pub use Handlers.*
