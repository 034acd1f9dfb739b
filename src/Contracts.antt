-- ===== src/Contracts.antt =====
-- packages/contracts/src: the closed enumerations (enums.ts) and the entities (entities.ts) that
-- the engine and the services share. A string enumeration is a data type, and `===` on it goes by
-- the position of a value in the source's list.
mod Enums
mod Entities
unfoldable pub use Enums.*
unfoldable pub use Entities.*
