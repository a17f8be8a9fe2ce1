-- ===== src/DatabasePool.antt =====
-- DatabasePool of src/common/include/database_pool.h. A connection is what is_open() is asked of; a new
-- one is `none` when its constructor throws. What runs under the mutex is one step.
pub mod Runs
pub mod Opened
use distributed_task_system.Common.{
  ◌>>=◌, Bool, false, not, ◌||◌, Option, none, some, List, [], ◌∷◌, ◌++◌, if◌then◌else◌, is_empty,
}

-- How a transaction ends: it is committed, broken_connection is thrown, or any other exception.
pub data TxEnd : Type 0 where
  committed : TxEnd
  connection_broken : TxEnd
  rolled_back : TxEnd

module _ {Conn : Type 0} (is_open : Conn → Bool) where
  abbrev pub opened : Option Conn → Option Conn
  opened none = none
  opened (some conn) = if is_open conn then some conn else none

  abbrev pub add_open : Option Conn → List Conn → List Conn
  add_open none pool = pool
  add_open (some conn) pool = pool ++ conn ∷ []

  -- The loop of the constructor over the connections it makes; `none` is LOG(FATAL).
  unfoldable pub fill_pool : List (Option Conn) → List Conn → Option (List Conn)
  fill_pool [] pool = some pool
  fill_pool (none ∷ made) pool = none
  fill_pool (some conn ∷ made) pool = fill_pool made (add_open (opened (some conn)) pool)

  -- The constructor, with one connection for each of pool_size.
  unfoldable pub new_database_pool : List (Option Conn) → Option (List Conn)
  new_database_pool made = if is_empty made then none else fill_pool made []

  abbrev pub is_closed : Option Conn → Bool
  is_closed none = false
  is_closed (some conn) = not (is_open conn)

  -- `reconnect` is the connection that is made anew, where one is wanted.
  unfoldable pub release_connection : Option Conn → Bool → Option Conn → List Conn → List Conn
  release_connection conn force_reconnect reconnect pool =
      add_open (opened (if force_reconnect || is_closed conn then opened reconnect else conn)) pool

  -- ExecuteTx from the end of the transaction on: conn_broken is false at its last line.
  unfoldable pub finish_tx : TxEnd → Conn → Option Conn → List Conn → List Conn
  finish_tx connection_broken conn reconnect pool =
      release_connection (some conn) false reconnect pool
  finish_tx rolled_back conn reconnect pool = release_connection (some conn) false reconnect pool
  finish_tx committed conn reconnect pool = release_connection (some conn) false reconnect pool

-- `none`: the thread waits.
unfoldable pub acquire_connection : {Conn : Type 0} → List Conn → Option (Conn × List Conn)
acquire_connection [] = none
acquire_connection (conn ∷ pool) = some (conn, pool)

module _ {Conn : Type 0} (is_open : Conn → Bool) where
  -- One thread alone: `tx_logic` is the transaction, with what it leaves of the connection.
  unfoldable pub execute_tx :
      (Conn → Conn × TxEnd) → Option Conn → List Conn → Option (TxEnd × List Conn)
  execute_tx tx_logic reconnect pool = acquire_connection pool >>= λ got.
      let (conn, rest) = got in
      let (conn', end) = tx_logic conn in some (end, finish_tx is_open end conn' reconnect rest)
