-- ===== src/Orm.antt =====
-- The database as the services see it: the Prisma client, which is a package and so a parameter,
-- behind the soft-delete middleware of backend/src/config/prisma.service.ts.
pub mod Client
pub mod SoftDelete
pub mod Query
pub mod Rows
pub mod Cursor
pub mod Columns
pub mod Tombstones
pub mod Owned
