-- ===== src/Config.antt =====
-- The configuration store: volttron/utils/storeutils.py, the service and the agents' side of it.
pub mod Links
pub mod Seen
pub mod Recursion
pub mod Store
pub mod Service
pub mod Tidy
pub mod Settled
pub mod Invariant
pub mod ReadBack
pub mod Deleted
pub mod View
pub mod Spec
pub mod Refinement
pub mod Agent
pub mod Startup
