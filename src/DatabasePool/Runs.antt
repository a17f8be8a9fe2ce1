-- ===== src/DatabasePool/Runs.antt =====
-- Many threads over one DatabasePool: what its connections come to.
use distributed_task_system.Common.{
  ℕ, suc, ◌>>=◌, >>=-eq-some, eq_of_some-eq-some, ◌+◌, ◌≡◌, refl, sym, ap, ◌↔◌, Bool, true, false,
  ◌||◌, Option, none, some, List, [], ◌∷◌, ◌++◌, arith, ◌==◌, if◌then◌else◌, length, length-append,
}
use distributed_task_system.DatabasePool.{
  TxEnd, committed, connection_broken, rolled_back, release_connection, finish_tx,
  acquire_connection, execute_tx,
}

-- The idle connections, and those that threads hold, by thread.
pub record Connections (Conn : Type 0) : Type 0 where
  pub idle : List Conn
  pub held : List (ℕ × Conn)

-- A thread takes a connection, or ends its transaction and gives it back.
pub data Event (Conn : Type 0) : Type 0 where
  acquires : ℕ → Event Conn
  ends : ℕ → (Conn → Conn × TxEnd) → Option Conn → Event Conn

abbrev pub take_held : {Conn : Type 0} → ℕ → List (ℕ × Conn) → Option (Conn × List (ℕ × Conn))
take_held t [] = none
take_held t ((u, conn) ∷ held) =
    let rest = take_held t held in
    if u == t then some (conn, held) else rest >>= λ r. some (r.0, (u, conn) ∷ r.1)

abbrev pub total : {Conn : Type 0} → Connections Conn → ℕ
total s = length s.idle + length s.held

module _ {Conn : Type 0} (is_open : Conn → Bool) where
  unfoldable pub step : Event Conn → Connections Conn → Option (Connections Conn)
  step (acquires t) s = acquire_connection s.idle >>= λ got.
      some (record { idle = got.1; held = (t, got.0) ∷ s.held })
  step (ends t tx_logic reconnect) s = take_held t s.held >>= λ got. some (record {
    idle = finish_tx is_open (tx_logic got.0).1 (tx_logic got.0).0 reconnect s.idle;
    held = got.1;
  })

  abbrev is_usable : Option Conn → Bool
  is_usable none = false
  is_usable (some conn) = is_open conn

  -- The connections that are lost: closed when given back, and not replaced by an open one.
  abbrev lost_by : (Conn → Conn × TxEnd) → Option Conn → Option (Conn × List (ℕ × Conn)) → ℕ
  lost_by tx_logic reconnect none = 0
  lost_by tx_logic reconnect (some got) =
      if is_open (tx_logic got.0).0 || is_usable reconnect then 0 else 1

  abbrev pub lost_at : Event Conn → Connections Conn → ℕ
  lost_at (acquires t) s = 0
  lost_at (ends t tx_logic reconnect) s = lost_by tx_logic reconnect (take_held t s.held)

  -- The events in their order; `none` if one of them cannot be.
  unfoldable pub run : List (Event Conn) → Connections Conn → Option (Connections Conn × ℕ)
  run [] s = some (s, 0)
  run (e ∷ es) s = step e s >>= λ s'. run es s' >>= λ r. some (r.0, lost_at e s + r.1)

  length-append-one :
      (pool : List Conn) (conn : Conn) → length (pool ++ conn ∷ []) ≡ suc (length pool)
  length-append-one pool conn = omega (arith, length-append pool (conn ∷ []))

  length-release :
      (conn : Conn) (reconnect : Option Conn) (pool : List Conn)
      → length (release_connection is_open (some conn) false reconnect pool)
          + (if is_open conn || is_usable reconnect then 0 else 1)
        ≡ suc (length pool)
  unfolding release_connection
  length-release conn none pool = ground (arith, length-append-one pool conn)
  length-release conn (some new) pool =
      ground (arith, length-append-one pool conn, length-append-one pool new)

  length-finish_tx :
      (end : TxEnd) (conn : Conn) (reconnect : Option Conn) (pool : List Conn)
      → length (finish_tx is_open end conn reconnect pool)
          + (if is_open conn || is_usable reconnect then 0 else 1)
        ≡ suc (length pool)
  unfolding finish_tx
  length-finish_tx committed conn reconnect pool = length-release conn reconnect pool
  length-finish_tx connection_broken conn reconnect pool = length-release conn reconnect pool
  length-finish_tx rolled_back conn reconnect pool = length-release conn reconnect pool

  length-acquire :
      (idle : List Conn) (got : Conn × List Conn)
      → acquire_connection idle ≡ some got
      → length idle ≡ suc (length got.1)
  unfolding acquire_connection
  length-acquire [] got h = cc
  length-acquire (conn ∷ pool) got h =
      ap (λ g. suc (length g.1)) (eq_of_some-eq-some (conn, pool) got h)

  length-take_held :
      (t : ℕ) (held : List (ℕ × Conn)) (got : Conn × List (ℕ × Conn))
      → take_held t held ≡ some got
      → length held ≡ suc (length got.1)
  length-take_held t [] got h = cc
  length-take_held t ((u, conn) ∷ held) got h = from (u == t) (length-take_held t held) h
    where
      more : Conn × List (ℕ × Conn) → Conn × List (ℕ × Conn)
      more r = (r.0, (u, conn) ∷ r.1)

      from :
          (mine : Bool)
          → ((r : Conn × List (ℕ × Conn))
              → take_held t held ≡ some r
              → length held ≡ suc (length r.1))
          → (if mine then some (conn, held) else take_held t held >>= λ r. some (more r)) ≡ some got
          → suc (length held) ≡ suc (length got.1)
      from true ih e = ap (λ g. suc (length g.1)) (eq_of_some-eq-some (conn, held) got e)
      from false ih e =
          let (r, took, made) = >>=-eq-some (take_held t held) _ e in
          rw (sym (eq_of_some-eq-some (more r) got made)) (ap suc (ih r took))

  step-total :
      (e : Event Conn) (s s' : Connections Conn)
      → step e s ≡ some s'
      → total s' + lost_at e s ≡ total s
  unfolding step
  step-total (acquires t) s s' h =
      let (got, took, made) = >>=-eq-some (acquire_connection s.idle) _ h in
      rw (sym (eq_of_some-eq-some _ s' made)) (omega (arith, length-acquire s.idle got took))
  step-total (ends t tx_logic reconnect) s s' h =
      let (got, took, made) = >>=-eq-some (take_held t s.held) _ h in
      rw (sym (eq_of_some-eq-some _ s' made), took)
        (omega (
          arith,
          length-take_held t s.held got took,
          length-finish_tx (tx_logic got.0).1 (tx_logic got.0).0 reconnect s.idle,
        ))

  -- In a run of any events, in the order in which the lock lets them in, the connections that are
  -- idle or held, with those lost by a transaction that leaves one closed when no open one can be
  -- made in its place, are as many as at the start.
  pub run-total :
      (es : List (Event Conn)) (s s' : Connections Conn) (lost : ℕ)
      → run es s ≡ some (s', lost)
      → total s' + lost ≡ total s
  unfolding run
  run-total [] s s' lost h = omega (arith, total_same (s, 0) (s', lost) (eq_of_some-eq-some _ _ h))
    where
      total_same : (a b : Connections Conn × ℕ) → a ≡ b → total b.0 + b.1 ≡ total a.0 + a.1
      total_same a b e = ap (λ r. total r.0 + r.1) (sym e)
  run-total (e ∷ es) s s' lost h =
      let (t, one, more) = >>=-eq-some (step e s) _ h in
      let (r, ran, made) = >>=-eq-some (run es t) _ more in
      omega (
        arith,
        step-total e s t one,
        run-total es t r.0 r.1 ran,
        ap (λ (q : Connections Conn × ℕ). total q.0 + q.1)
            (eq_of_some-eq-some (r.0, lost_at e s + r.1) (s', lost) made),
      )

  acquire_waits : (idle : List Conn) → (acquire_connection idle ≡ none) ↔ (length idle ≡ 0)
  unfolding acquire_connection
  acquire_waits [] = (λ _. refl, λ _. refl)
  acquire_waits (conn ∷ idle) = (λ e. cc, λ e. absurd (omega arith))

  -- After a run from a new pool at whose end no thread holds a connection, a thread that asks for one
  -- waits if and only if the run has lost as many connections as the pool was given.
  pub exhausted_iff_lost :
      (pool : List Conn) (es : List (Event Conn)) (s : Connections Conn) (lost : ℕ)
      → run es (record { idle = pool; held = [] }) ≡ some (s, lost)
      → s.held ≡ []
      → (acquire_connection s.idle ≡ none) ↔ (lost ≡ length pool)
  exhausted_iff_lost pool es s lost ran free =
      let all = run-total es (record { idle = pool; held = [] }) s lost ran in
      let none_held = ap length free in
      let waits = acquire_waits s.idle in
      (
        λ w. omega (arith, all, none_held, waits.0 w),
        λ l. waits.1 (omega (arith, all, none_held, l)),
      )

  -- ExecuteTx of one thread by itself leaves the pool as its two events do, and waits as they do.
  pub execute_tx-run :
      (t : ℕ) (tx_logic : Conn → Conn × TxEnd) (reconnect : Option Conn) (pool : List Conn)
      → (run (acquires t ∷ ends t tx_logic reconnect ∷ []) (record { idle = pool; held = [] })
          >>= λ r. some r.0.idle)
        ≡ (execute_tx is_open tx_logic reconnect pool >>= λ r. some r.1)
  unfolding run step execute_tx acquire_connection
  execute_tx-run t tx_logic reconnect [] = refl
  execute_tx-run t tx_logic reconnect (conn ∷ pool) = rw same refl
    where
      same : (t == t) ≡ true
      same = ground arith
