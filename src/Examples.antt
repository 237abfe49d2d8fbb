-- ===== src/Examples.antt =====
-- Runs of the functions at concrete inputs, and the theorems at inputs that meet their hypotheses.
pub mod Acl
pub mod Access
pub mod Store
pub mod Allocator
pub mod Arguments
pub mod Dtree
pub mod Environment
pub mod Groups
pub mod LineBuf
pub mod Transfer
pub mod Proctree
pub mod Streams
pub mod Transfers
