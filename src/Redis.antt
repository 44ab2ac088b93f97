-- ===== src/Redis.antt =====
-- apps/api/src/infrastructure/redis/redis.service.ts and the Redis server behind it.
pub mod Dataset
pub mod Prog
pub mod Service
pub mod Client
pub mod Laws
