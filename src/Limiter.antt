-- ===== src/Limiter.antt =====
-- Token buckets and quotas by tenant (src/resiliency/rate_limiter.rs).
pub mod Float
pub mod Bucket
pub mod Bounds
pub mod Floors
pub mod Quota
pub mod Isolation
pub mod Reset
pub mod Instances
mod Tests
