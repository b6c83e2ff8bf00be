-- ===== src/Router.antt =====
-- The router: volttron/server/router/base_router.py and router.py.
pub mod State
pub mod Send
pub mod Peers
pub mod Subsystems
pub mod Route
pub mod Steady
pub mod Invariant
pub mod Termination
pub mod Forgotten
pub mod Forwarding
