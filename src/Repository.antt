-- ===== src/Repository.antt =====
-- app/analytics/repository: one module per collection. Every repository holds its collection, so
-- its methods take the driver; `ctx` carries deadlines only and is left out.
pub mod Indexes
pub mod Interfaces
pub mod Entity
pub mod RestaurantDay
pub mod BranchDay
pub mod ProductDay
pub mod PlatformDay
pub mod EventIds
pub mod Stores
pub mod Counting
