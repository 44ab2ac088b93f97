-- ===== src/Database.antt =====
-- The accounts and the roles in PostgreSQL, as Prisma shows them to the program.
pub mod Tables
pub mod Query
pub mod Client
pub mod Laws
