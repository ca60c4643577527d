-- ===== src/Process.antt =====
-- A process around an `http.Server`, as both programs have one: `main` of apps/sample-api/main.go with
-- `shutdown`, and `main` of apps/costwatch/backend/cmd/costwatch/main.go. The goroutine that listens,
-- `main` itself and the connections take their steps in any order, and time passes between them. What
-- the program adds is a `Program`; of `net/http` the documented behaviour is used: `Shutdown` closes
-- the listener, which makes `ListenAndServe` return `ErrServerClosed`, waits for that, and returns once
-- all connections are closed, or when its context ends. Instants and durations are in nanoseconds.
pub mod Times
use eksp.Base.{
  ℕ, ◌+◌, ◌≤◌, get_elem?, set, List, [], ◌∷◌, ◌++◌, Option, none, some, ◌≡◌, ◌≢◌, ◌⊎◌, ℤ, pos_part,
  All,
}

-- The goroutine that calls `ListenAndServe`.
pub data Listener : Type 0 where
  started : Listener
  accepting : Listener
  -- it has got `ErrServerClosed`
  closed : Listener

-- Where `main` stands, and the instant at which it got there.
pub data Main : Type 0 where
  -- at `<-ctx.Done()`
  waiting : Main
  -- in the delay before the server is shut down
  sleeping : ℕ → Main
  -- in `srv.Shutdown`
  stopping : ℕ → Main

-- What a program adds: `A` is its state, `C` that of a connection.
pub record Program (A C : Type 0) : Type 1 where
  -- what it does on a signal
  pub on_signal : A → A
  -- how long it then goes on as before
  pub delay : ℤ
  -- how long `srv.Shutdown` may take
  pub limit : ℤ
  -- a connection on which no request has come yet
  pub opened : C
  pub IsDone : C → Type 0
  -- what time does to it: the state may hold a clock
  pub on_tick : ℕ → A → A
  -- a step of a connection, given by its number
  pub Turn : ℕ → A → C → A → C → Type 0
  -- where a goroutine that a connection has started panics, which nothing recovers
  pub Crashes : A → C → Type 0

pub record Process (A C : Type 0) : Type 0 where
  pub now : ℕ
  pub app : A
  pub connections : List C
  pub listener : Listener
  pub main : Main
  -- the exit code
  pub exited : Option ℕ

module _ {A C : Type 0} (p : Program A C) where
  pub data Step (s : Process A C) : Process A C → Type 0 where
    tick :
        (d : ℕ) → s.exited ≡ none → Step s (record s { now = s.now + d; app = p.on_tick d s.app })
    listen :
        s.exited ≡ none
        → s.listener ≡ started
        → (s.main ≡ waiting) ⊎ ((t : ℕ) × (s.main ≡ sleeping t))
        → Step s (record s { listener = accepting })
    -- `ErrServerClosed`
    listener_closed :
        (t : ℕ) → s.exited ≡ none → s.main ≡ stopping t → Step s (record s { listener = closed })
    -- any other error: `os.Exit(1)`
    listener_failed :
        s.exited ≡ none
        → (s.listener ≡ started) ⊎ (s.listener ≡ accepting)
        → Step s (record s { exited = some 1 })
    -- the Go runtime ends the process with code 2
    crash :
        (i : ℕ) (c : C)
        → s.exited ≡ none
        → get_elem? s.connections i ≡ some c
        → p.Crashes s.app c
        → Step s (record s { exited = some 2 })
    accept :
        s.exited ≡ none
        → s.listener ≡ accepting
        → Step s (record s { connections = s.connections ++ p.opened ∷ [] })
    turn :
        (i : ℕ) (c c' : C) (a : A)
        → s.exited ≡ none
        → get_elem? s.connections i ≡ some c
        → p.Turn i s.app c a c'
        → Step s (record s { app = a; connections = set s.connections i c' })
    signal :
        s.exited ≡ none
        → s.main ≡ waiting
        → Step s (record s { app = p.on_signal s.app; main = sleeping s.now })
    shut_down :
        (t : ℕ)
        → s.exited ≡ none
        → s.main ≡ sleeping t
        → t + pos_part p.delay ≤ s.now
        → Step s (record s { main = stopping s.now })
    -- `srv.Shutdown` returns nil, and `main` returns
    drained :
        (t : ℕ)
        → s.exited ≡ none
        → s.main ≡ stopping t
        → s.listener ≢ accepting
        → All p.IsDone s.connections
        → Step s (record s { exited = some 0 })
    -- `srv.Shutdown` returns the error of its context, and `main` returns
    forced :
        (t : ℕ)
        → s.exited ≡ none
        → s.main ≡ stopping t
        → t + pos_part p.limit ≤ s.now
        → Step s (record s { exited = some 0 })

  pub data Reach (s : Process A C) : Process A C → Type 0 where
    here : Reach s s
    next : {t u : Process A C} → Reach s t → Step t u → Reach s u

  -- `main` up to `<-ctx.Done()`, with the state that the program starts with.
  abbrev pub launched : ℕ → A → Process A C
  launched now a = record {
    now = now;
    app = a;
    connections = [];
    listener = started;
    main = waiting;
    exited = none;
  }
