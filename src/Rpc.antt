-- ===== src/Rpc.antt =====
-- What the servers take from tonic: status codes, replies, requests and their extensions.
mod Codes
mod Statuses
mod Actions
mod Cases
mod Ends
pub use Codes.{Code}
pub use Statuses.*
pub use Actions.*
pub use Cases.*
pub use Ends.*
