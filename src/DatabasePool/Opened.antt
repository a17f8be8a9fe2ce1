-- ===== src/DatabasePool/Opened.antt =====
-- The connections that wait in a DatabasePool were open when they were put there.
use distributed_task_system.Common.{
  ℕ, >>=-eq-some, eq_of_some-eq-some, ◌+◌, ◌≡◌, subst, inl, inr, Bool, true, false, Option, none,
  some, List, [], ◌∷◌, ◌++◌, if◌then◌else◌, Bool-cases, is_empty, All,
}
use distributed_task_system.DatabasePool.{
  TxEnd, committed, connection_broken, rolled_back, opened, add_open, fill_pool, new_database_pool,
  release_connection, finish_tx, acquire_connection,
}
use distributed_task_system.DatabasePool.Runs.{
  Connections, Event, acquires, ends, take_held, lost_at, step, run,
}

module _ {Conn : Type 0} (is_open : Conn → Bool) where
  abbrev pub AreOpen : List Conn → Type 0
  AreOpen pool = All (λ conn. is_open conn ≡ true) pool

  add_one :
      (pool : List Conn) (conn : Conn)
      → AreOpen pool
      → is_open conn ≡ true
      → AreOpen (pool ++ conn ∷ [])
  add_one [] conn h o = (o, tt)
  add_one (c ∷ pool) conn h o = (h.0, add_one pool conn h.1 o)

  add_open-AreOpen :
      (conn : Option Conn) (pool : List Conn)
      → AreOpen pool
      → AreOpen (add_open is_open (opened is_open conn) pool)
  add_open-AreOpen none pool h = h
  add_open-AreOpen (some conn) pool h = elim (Bool-cases (is_open conn)) [
    | inl o ↦ rw o (add_one pool conn h o)
    | inr c ↦ rw c h
  ]

  fill_pool-AreOpen :
      (made : List (Option Conn)) (pool full : List Conn)
      → AreOpen pool
      → fill_pool is_open made pool ≡ some full
      → AreOpen full
  unfolding fill_pool
  fill_pool-AreOpen [] pool full h e = subst AreOpen (eq_of_some-eq-some pool full e) h
  fill_pool-AreOpen (none ∷ made) pool full h e = cc
  fill_pool-AreOpen (some conn ∷ made) pool full h e =
      fill_pool-AreOpen made _ full (add_open-AreOpen (some conn) pool h) e

  finish_tx-AreOpen :
      (end : TxEnd) (conn : Conn) (reconnect : Option Conn) (pool : List Conn)
      → AreOpen pool
      → AreOpen (finish_tx is_open end conn reconnect pool)
  unfolding finish_tx release_connection
  finish_tx-AreOpen committed conn reconnect pool h = add_open-AreOpen _ pool h
  finish_tx-AreOpen connection_broken conn reconnect pool h = add_open-AreOpen _ pool h
  finish_tx-AreOpen rolled_back conn reconnect pool h = add_open-AreOpen _ pool h

  acquire-AreOpen :
      (idle : List Conn) (got : Conn × List Conn)
      → acquire_connection idle ≡ some got
      → AreOpen idle
      → AreOpen got.1
  unfolding acquire_connection
  acquire-AreOpen [] got e h = cc
  acquire-AreOpen (conn ∷ pool) got e h =
      subst (λ g. AreOpen g.1) (eq_of_some-eq-some (conn, pool) got e) h.1

  abbrev IdleOpen : Connections Conn → Type 0
  IdleOpen s = AreOpen s.idle

  step-AreOpen :
      (e : Event Conn) (s t : Connections Conn)
      → step is_open e s ≡ some t
      → AreOpen s.idle
      → AreOpen t.idle
  unfolding step
  step-AreOpen (acquires n) s t e h =
      let (got, took, made) = >>=-eq-some (acquire_connection s.idle) _ e in
      subst IdleOpen (eq_of_some-eq-some _ t made) (acquire-AreOpen s.idle got took h)
  step-AreOpen (ends n tx_logic reconnect) s t e h =
      let (got, took, made) = >>=-eq-some (take_held n s.held) _ e in
      subst IdleOpen (eq_of_some-eq-some _ t made)
        (finish_tx-AreOpen (tx_logic got.0).1 (tx_logic got.0).0 reconnect s.idle h)

  run-AreOpen :
      (es : List (Event Conn)) (s t : Connections Conn) (lost : ℕ)
      → run is_open es s ≡ some (t, lost)
      → AreOpen s.idle
      → AreOpen t.idle
  unfolding run
  run-AreOpen [] s t lost e h = subst (λ r. IdleOpen r.0) (eq_of_some-eq-some (s, 0) (t, lost) e) h
  run-AreOpen (v ∷ es) s t lost e h =
      let (u, one, more) = >>=-eq-some (step is_open v s) _ e in
      let (r, ran, made) = >>=-eq-some (run is_open es u) _ more in
      subst (λ q. IdleOpen q.0) (eq_of_some-eq-some (r.0, lost_at is_open v s + r.1) (t, lost) made)
        (run-AreOpen es u r.0 r.1 ran (step-AreOpen v s u one h))

  -- If the constructor does not end the process, then after any events every connection that waits in
  -- the pool was open when it was put there.
  pub idle_opened :
      (made : List (Option Conn)) (pool : List Conn) (es : List (Event Conn)) (s : Connections Conn)
      (lost : ℕ)
      → new_database_pool is_open made ≡ some pool
      → run is_open es (record { idle = pool; held = [] }) ≡ some (s, lost)
      → AreOpen s.idle
  unfolding new_database_pool
  idle_opened made pool es s lost e ran = run-AreOpen es _ s lost ran (filled (is_empty made) e)
    where
      filled :
          (nothing : Bool)
          → (if nothing then none else fill_pool is_open made []) ≡ some pool
          → AreOpen pool
      filled true f = cc
      filled false f = fill_pool-AreOpen made [] pool tt f
