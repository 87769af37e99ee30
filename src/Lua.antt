-- ===== src/Lua.antt =====
-- The part of Lua's C interface that the bindings call, as the Lua reference manual describes it:
-- the values, the stack of a call with absolute and relative indices, tables, full userdata as
-- boxes that hold one pointer, references in the registry, and errors that leave the C function.
mod Values
mod Machine
mod Access
mod Convert
mod Calls
mod Partial
mod Boxes
mod Laws
unfoldable pub use Values.*
unfoldable pub use Machine.*
unfoldable pub use Access.*
unfoldable pub use Convert.*
unfoldable pub use Calls.*
pub use Partial.*
pub use Boxes.*
pub use Laws.*
