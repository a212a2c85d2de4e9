-- ===== src/Domain.antt =====
-- The rows of libs/database/prisma/schema.prisma that the services share, and the interfaces of the
-- Prisma client that they use. A table is a parameter of every model; its laws are the documented
-- behaviour of `findUnique`, `update` and `deleteMany`.
mod Delegates
mod UserRow
unfoldable pub use Delegates.*
unfoldable pub use UserRow.*
