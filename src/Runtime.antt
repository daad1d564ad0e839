-- ===== src/Runtime.antt =====
-- The world that the controllers act on: files, the log of what was done, and the answers that come
-- from outside (shell, network, clock, API server and the packages that are not in the repository).
-- A controller run is a computation in the monad `M`, which keeps the world, the status of the
-- custom resource and the notification data, and which may panic.
mod Defs
mod Monad
pub mod Laws
pub mod Always
unfoldable pub use Defs.*
unfoldable pub use Monad.*
