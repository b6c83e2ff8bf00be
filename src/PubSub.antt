-- ===== src/PubSub.antt =====
-- services/routing/pubsub_service.py: the publish and subscribe service of the router.
pub mod Subscriptions
pub mod Protected
pub mod Service
pub mod Publish
pub mod Parse
pub mod Requests
pub mod Updates
pub mod Handler
pub mod Invariant
pub mod Soundness
pub mod Delivery
pub mod Sending
pub mod Authorization
pub mod Responses
