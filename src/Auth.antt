-- ===== src/Auth.antt =====
-- services/auth/auth_service.py: the entries of the authorization file, the file, and the service.
pub mod Fields
pub mod Entry
pub mod Reading
pub mod Indices
pub mod File
pub mod User
pub mod Service
pub mod Failures
pub mod Calls
pub mod Authenticate
pub mod Requests
pub mod Zap
pub mod UserNames
pub mod Built
pub mod Entries
pub mod Vars
pub mod ReadBack
pub mod Rereading
pub mod UserIds
pub mod Revoked
pub mod Roles
pub mod RolesKept
pub mod Unique
pub mod Added
pub mod Kept
pub mod Replaced
pub mod Refused
pub mod Rounds
