-- ===== src/Py.antt =====
-- What the components use of Python: dictionaries, dynamic values, exceptions.
pub mod Dict
pub mod Value
pub mod Result
pub mod Exec
pub mod Text
pub mod Keeps
pub mod Returns
pub mod Access
