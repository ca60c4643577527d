-- ===== src/Process/Times.antt =====
-- How long a process goes on after a signal, and how it ends.
use mathlib.Core.Path.{subst}
use eksp.Base.{
  ℕ, ◌+◌, ◌≤◌, Option, none, some, ◌≡◌, ◌≢◌, ◌⊎◌, inl, inr, refl, sym, pos_part, All, arith,
}
use eksp.Process.{
  accepting, closed, Main, waiting, sleeping, stopping, Program, Process, Step, tick, listen,
  listener_closed, listener_failed, crash, accept, turn, signal, shut_down, drained, forced, Reach,
  here, next, launched,
}

-- What `main` has waited for since the instant `from`, at which it had got no signal.
abbrev pub MainSince : ℕ → ℕ → ℕ → Main → Type 0
MainSince from delay now waiting = from ≤ now
MainSince from delay now (sleeping t) = (from ≤ t) × (t ≤ now)
MainSince from delay now (stopping t) = (from + delay ≤ t) × (t ≤ now)

MainSince-later :
    (from delay now d : ℕ) (m : Main)
    → MainSince from delay now m
    → MainSince from delay (now + d) m
MainSince-later from delay now d waiting h = omega (arith, h)
MainSince-later from delay now d (sleeping t) (h, h') = (h, omega (arith, h'))
MainSince-later from delay now d (stopping t) (h, h') = (h, omega (arith, h'))

MainSince-now : (from delay now : ℕ) (m : Main) → MainSince from delay now m → from ≤ now
MainSince-now from delay now waiting h = h
MainSince-now from delay now (sleeping t) h = omega (arith, h)
MainSince-now from delay now (stopping t) h = omega (arith, h)

module _ {A C : Type 0} (p : Program A C) where
  -- The server has no connection left.
  abbrev pub IsDrained : Process A C → Type 0
  IsDrained s = (s.listener ≢ accepting) × All p.IsDone s.connections

  record Since (from : ℕ) (s : Process A C) : Type 0 where
    main_since : MainSince from (pos_part p.delay) s.now s.main
    after_closing : s.listener ≡ closed → (t : ℕ) × (s.main ≡ stopping t)
    after_end :
        s.exited ≡ some 0
        → (t : ℕ) × (s.main ≡ stopping t) × (IsDrained s ⊎ (t + pos_part p.limit ≤ s.now))

  none-some : {n : ℕ} {o : Option ℕ} → o ≡ none → o ≢ some n
  none-some e e' = ground (arith, e, e')

  not_ended :
      {from : ℕ} {u : Process A C}
      → u.exited ≡ none
      → MainSince from (pos_part p.delay) u.now u.main
      → (u.listener ≡ closed → (t : ℕ) × (u.main ≡ stopping t))
      → Since from u
  not_ended on main closing = record {
    main_since = main;
    after_closing = closing;
    after_end = λ e. absurd (none-some on e);
  }

  ended :
      {from : ℕ} {s : Process A C} (t : ℕ)
      → s.main ≡ stopping t
      → IsDrained s ⊎ (t + pos_part p.limit ≤ s.now)
      → Since from s
      → Since from (record s { exited = some 0 })
  ended t e end h = record {
    main_since = h.main_since;
    after_closing = h.after_closing;
    after_end = λ _. (t, e, end);
  }

  Step-Since : (from : ℕ) {s u : Process A C} → Step p s u → Since from s → Since from u
  Step-Since from {s} (tick d on) h =
      not_ended on (MainSince-later from (pos_part p.delay) s.now d s.main h.main_since)
        h.after_closing
  Step-Since from (listen on e _) h = not_ended on h.main_since (λ e'. ground (arith, e'))
  Step-Since from (listener_closed t on e) h = not_ended on h.main_since (λ _. (t, e))
  Step-Since from (listener_failed on _) h = record {
    main_since = h.main_since;
    after_closing = h.after_closing;
    after_end = λ e. ground (arith, e);
  }
  Step-Since from (crash i c on at dies) h = record {
    main_since = h.main_since;
    after_closing = h.after_closing;
    after_end = λ e. ground (arith, e);
  }
  Step-Since from (accept on e) h = not_ended on h.main_since h.after_closing
  Step-Since from (turn i c c' a on at t) h = not_ended on h.main_since h.after_closing
  Step-Since from {s} (signal on e) h =
      let m = subst (MainSince from (pos_part p.delay) s.now) e h.main_since in
      not_ended on (m, omega arith) (λ e'. let (t, q) = h.after_closing e' in ground (arith, e, q))
  Step-Since from {s} (shut_down t on e late) h =
      let m = subst (MainSince from (pos_part p.delay) s.now) e h.main_since in
      not_ended on (omega (arith, m, late), omega arith) (λ _. (s.now, refl))
  Step-Since from (drained t on e shut done) h = ended t e (inl (shut, done)) h
  Step-Since from (forced t on e late) h = ended t e (inr late) h

  Reach-Since : (from : ℕ) {s u : Process A C} → Reach p s u → Since from s → Since from u
  Reach-Since from here h = h
  Reach-Since from (next r st) h = Step-Since from st (Reach-Since from r h)

  launched-Since : (now : ℕ) (a : A) → Since now (launched p now a)
  launched-Since now a = record {
    main_since = omega arith;
    after_closing = λ e. ground (arith, e);
    after_end = λ e. ground (arith, e);
  }

  waiting-Since : {from : ℕ} {s : Process A C} → s.main ≡ waiting → Since from s → Since s.now s
  waiting-Since {from} {s} e h = record {
    main_since = subst (MainSince s.now (pos_part p.delay) s.now) (sym e) (omega arith);
    after_closing = h.after_closing;
    after_end = h.after_end;
  }

  pub Reach-trans : {s t u : Process A C} → Reach p s t → Reach p t u → Reach p s u
  Reach-trans r here = r
  Reach-trans r (next q st) = next (Reach-trans r q) st

  module _ {start : ℕ} {a : A} {s u : Process A C} (before : Reach p (launched p start a) s)
      (quiet : s.main ≡ waiting) (after : Reach p s u) where
    since : Since s.now u
    since =
        Reach-Since s.now after
          (waiting-Since quiet (Reach-Since start before (launched-Since start a)))

    stopping_late : {t : ℕ} → u.main ≡ stopping t → s.now + pos_part p.delay ≤ t
    stopping_late e = (subst (MainSince s.now (pos_part p.delay) u.now) e since.main_since).0

    -- The listener closes no sooner than the delay after the last moment without a signal.
    pub closed-late : u.listener ≡ closed → s.now + pos_part p.delay ≤ u.now
    closed-late e =
        let (t, q) = since.after_closing e in
        let (h, h') = subst (MainSince s.now (pos_part p.delay) u.now) q since.main_since in
        omega (arith, h, h')

    -- A process that ends with 0 ends no sooner than that either, and has no connection left, or has
    -- gone on for as long as `srv.Shutdown` may take.
    pub ended-Drained :
        u.exited ≡ some 0
        → (s.now + pos_part p.delay ≤ u.now)
          × (IsDrained u ⊎ (s.now + pos_part p.delay + pos_part p.limit ≤ u.now))
    ended-Drained e =
        let (t, q, end) = since.after_end e in
        let (h, h') = subst (MainSince s.now (pos_part p.delay) u.now) q since.main_since in
        (
          omega (arith, h, h'),
          elim end [ inl done ↦ inl done | inr late ↦ inr (omega (arith, h, late)) ],
        )

  -- A process that runs and has got no signal can end with 0 after the delay and the time that
  -- `srv.Shutdown` may take, whatever its connections do.
  can_end :
      (s : Process A C)
      → s.exited ≡ none
      → s.main ≡ waiting
      → (u : Process A C) × Reach p s u
        × (u.exited ≡ some 0)
        × (u.now ≡ s.now + pos_part p.delay + pos_part p.limit)
  can_end s on e = (
    _,
    next
        (next
          (next (next (next here (signal on e)) (tick (pos_part p.delay) on))
            (shut_down s.now on refl (omega arith)))
          (tick (pos_part p.limit) on))
        (forced (s.now + pos_part p.delay) on refl (omega arith)),
    refl,
    refl,
  )
