-- ===== src/Tests.antt =====
-- The theorems at concrete inputs.
pub mod Db
pub mod Wire
pub mod Table
pub mod Text
pub mod Remote
pub mod Card
pub mod Gps
pub mod Link
pub mod Store
pub mod Board
