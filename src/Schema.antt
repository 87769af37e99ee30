-- ===== src/Schema.antt =====
-- src/realm_schema.cpp: the schema that `Realm.open` is given, read from its Lua table, and the
-- schema of an open realm, handed back as one.
pub mod Types
pub mod Property
pub mod Parse
pub mod Push
