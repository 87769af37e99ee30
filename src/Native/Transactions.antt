-- ===== src/Native/Transactions.antt =====
-- The handle of a realm and its transactions, of src/realm_native_lib.cpp. A function returns how
-- many values on the stack are its results.
pub mod Release
use realm_lua_bootcamp.Prelude.{ℕ}
use realm_lua_bootcamp.Lua.{
  Exec, bottom, top, realm_handle, pure, call, touserdata, load, store, handle_at, lua_l_checkudata,
  ◌>>=◌, ◌>>◌,
}
use realm_lua_bootcamp.Native.Api.{RealmApi}
use realm_lua_bootcamp.Native.Convert.{inform_realm_error, or_realm_error}

module _ {W : Type 0} ⦃api : RealmApi W⦄ where
  -- It checks the first argument and releases the last.
  unfoldable pub lib_realm_release : Exec W ℕ
  lib_realm_release = do
    lua_l_checkudata (bottom 1) realm_handle
    u ← touserdata (top 1)
    p ← load u
    call (λ w. (tt, api.release p w))
    store u 0
    pure 0

  unfoldable pub lib_realm_begin_write : Exec W ℕ
  unfolding inform_realm_error
  lib_realm_begin_write = do
    lua_l_checkudata (bottom 1) realm_handle
    realm ← handle_at (top 1)
    status ← call (api.begin_write realm)
    or_realm_error status
    pure 0

  unfoldable pub lib_realm_commit_transaction : Exec W ℕ
  unfolding inform_realm_error
  lib_realm_commit_transaction = do
    lua_l_checkudata (bottom 1) realm_handle
    realm ← handle_at (top 1)
    status ← call (api.commit realm)
    or_realm_error status
    pure 0

  unfoldable pub lib_realm_cancel_transaction : Exec W ℕ
  unfolding inform_realm_error
  lib_realm_cancel_transaction = do
    lua_l_checkudata (bottom 1) realm_handle
    realm ← handle_at (top 1)
    status ← call (api.rollback realm)
    or_realm_error status
    pure 0
