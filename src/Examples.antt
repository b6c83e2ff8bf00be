-- ===== src/Examples.antt =====
-- The theorems at concrete inputs.
mod PubSub
mod Router
mod JsonRpc
mod Dispatch
mod Config
mod Agent
mod Auth
