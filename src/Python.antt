-- ===== src/Python.antt =====
-- What the SDK takes from Python: its exceptions (atp/core/exceptions.py stands among them), dynamic
-- values with `json.dumps`, and `datetime`.
pub mod Exceptions
pub mod Json
pub mod Sorting
pub mod Canonical
pub mod DateTime
pub mod Exec
pub mod Equality
pub mod Integers
