-- ===== src/Native.antt =====
-- The functions of the module `realm.native`: src/realm_native_lib.cpp and the conversions of
-- src/realm_util.cpp.
pub mod Api
pub mod Convert
pub mod Open
pub mod Transactions
pub mod Objects
pub mod Results
pub mod Lists
pub mod Dictionaries
pub mod Sets
