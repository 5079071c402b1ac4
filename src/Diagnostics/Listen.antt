-- ===== src/Diagnostics/Listen.antt =====
-- internal/diagnostics/server.go: `Listen` and `receiveConfig`, three goroutines and the context that
-- they share, interleaved in any order. Log lines are left out.
use kong_portal_controller.Base.{
  ℕ, suc, ◌≡◌, refl, ◌⊎◌, inl, inr, Bool, true, false, Option, none, some, Error, if◌then◌else◌,
}

-- The goroutine that serves: within `ListenAndServe`, at `errChan <- err`, or ended.
pub data Serving : Type 0 where
  accepting : Serving
  offering : Error → Serving
  ended : Serving

-- `receiveConfig`: at its select, or returned.
pub data Receiving : Type 0 where
  watching returned_done : Receiving

pub Receiving-cases : (r : Receiving) → (r ≡ watching) ⊎ (r ≡ returned_done)
Receiving-cases watching = inl refl
Receiving-cases returned_done = inr refl

-- `Listen`: at its select, within `Shutdown`, or returned.
pub data Listening : Type 0 where
  selecting closing : Listening
  returned : Option Error → Listening

-- `ctx` is `ctx.Err()`: none until the context is over. `down` says that `Shutdown` of the server was
-- called.
pub record Goroutines : Type 0 where
  pub ctx : Option Error
  pub down : Bool
  pub serving : Serving
  pub receiving : Receiving
  pub listening : Listening

-- The context is over.
abbrev pub IsOver : Goroutines → Type 0
IsOver s = (e : Error) × (s.ctx ≡ some e)

-- `http.ErrServerClosed`, and `errors.Is` of an error and it.
pub record HttpLib : Type 0 where
  pub server_closed : Error
  pub is_server_closed : Error → Bool
  pub closed-itself : is_server_closed server_closed ≡ true

module _ (H : HttpLib) where
  -- What the serving goroutine does with the result of `ListenAndServe`.
  unfoldable pub after_serving : Option Error → Serving
  after_serving none = ended
  after_serving (some e) = if H.is_server_closed e then ended else offering e

  -- The context ends at any time. As net/http documents it, `ListenAndServe` never returns nil: it fails
  -- at any time with another error, and returns `ErrServerClosed` only after the call of `Shutdown`.
  -- `Shutdown` returns what it likes. A send on the channel, which has no buffer, takes place when
  -- `Listen` receives.
  pub data Step (s : Goroutines) : Goroutines → Type 0 where
    expires : (e : Error) → s.ctx ≡ none → Step s (record s { ctx = some e })
    fails_serving :
        (e : Error)
        → H.is_server_closed e ≡ false
        → s.serving ≡ accepting
        → Step s (record s { serving = after_serving (some e) })
    closes_serving :
        s.down ≡ true
        → s.serving ≡ accepting
        → Step s (record s { serving = after_serving (some H.server_closed) })
    receives_done :
        (e : Error)
        → s.ctx ≡ some e
        → s.receiving ≡ watching
        → Step s (record s { receiving = returned_done })
    selects_done :
        (e : Error)
        → s.ctx ≡ some e
        → s.listening ≡ selecting
        → Step s (record s { down = true; listening = closing })
    selects_error :
        (e : Error)
        → s.serving ≡ offering e
        → s.listening ≡ selecting
        → Step s (record s { serving = ended; listening = returned (some e) })
    shuts_down :
        (r : Option Error) → s.listening ≡ closing → Step s (record s { listening = returned r })

  -- Where `Listen` comes to its select.
  abbrev pub started : Option Error → Goroutines
  started ctx = record {
    ctx = ctx;
    down = false;
    serving = accepting;
    receiving = watching;
    listening = selecting;
  }

  pub data Reach (ctx : Option Error) : Goroutines → Type 0 where
    start : Reach ctx (started ctx)
    later : {s t : Goroutines} → Reach ctx s → Step s t → Reach ctx t

  -- A run of so many steps.
  pub data Run (s : Goroutines) : ℕ → Goroutines → Type 0 where
    no_step : Run s 0 s
    more_steps : {n : ℕ} {t u : Goroutines} → Run s n t → Step t u → Run s (suc n) u
