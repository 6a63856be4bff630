-- ===== src/Types.antt =====
-- The data types of api/types.
pub mod Attachments
pub mod Values
pub mod Models
pub mod Errors
pub mod LocalDevices
pub mod Uuids
pub mod Transactions
pub mod InstanceIds
