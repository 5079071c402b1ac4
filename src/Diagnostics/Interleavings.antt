-- ===== src/Diagnostics/Interleavings.antt =====
-- internal/diagnostics/server.go: what holds of `Listen` in every order of the goroutines' steps.
use kong_portal_controller.Base.{
  ℕ, ◌≡◌, ◌≢◌, refl, ◌⊎◌, inl, inr, false, Option, some, arith, Error,
}
use kong_portal_controller.Diagnostics.Listen.{
  Receiving-cases, IsOver, offering, ended, watching, returned_done, selecting, closing, returned,
  Goroutines, HttpLib, after_serving, Step, expires, fails_serving, closes_serving, receives_done,
  selects_done, selects_error, shuts_down, Reach, start, later, Run, no_step, more_steps,
}

module _ (H : HttpLib) where
  -- An error that is not that of a closed server.
  abbrev pub IsFailure : Error → Type 0
  IsFailure e = H.is_server_closed e ≡ false

  -- What is known of the goroutines at any time.
  record IsSound (s : Goroutines) : Type 0 where
    offers : (e : Error) → s.serving ≡ offering e → IsFailure e
    closes : s.listening ≡ closing → IsOver s
    collects : s.receiving ≡ returned_done → IsOver s
    returns_error :
        (r : Option Error)
        → s.listening ≡ returned r
        → IsOver s ⊎ ((e : Error) × (r ≡ some e) × IsFailure e × (s.serving ≡ ended))

  Step-IsSound : {s t : Goroutines} → Step H s t → IsSound s → IsSound t
  unfolding after_serving
  Step-IsSound {s} (expires e over) I = record {
    offers = λ e' h. I.offers e' h;
    closes = λ h. (e, refl);
    collects = λ h. (e, refl);
    returns_error = λ r h. inl (e, refl);
  }
  Step-IsSound {s} (fails_serving e failure here) I = record {
    offers = λ e' h. ground (arith, failure);
    closes = λ h. I.closes h;
    collects = λ h. I.collects h;
    returns_error = λ r' h. elim (I.returns_error r' h) [
      | inl over ↦ inl over
      | inr (e', x, y, z) ↦ absurd (ground arith)
    ];
  }
  Step-IsSound {s} (closes_serving down here) I = record {
    offers = λ e' h. ground (arith, H.closed-itself);
    closes = λ h. I.closes h;
    collects = λ h. I.collects h;
    returns_error = λ r' h. elim (I.returns_error r' h) [
      | inl over ↦ inl over
      | inr (e', x, y, z) ↦ absurd (ground arith)
    ];
  }
  Step-IsSound {s} (receives_done e over here) I = record {
    offers = λ e' h. I.offers e' h;
    closes = λ h. I.closes h;
    collects = λ h. (e, over);
    returns_error = λ r h. I.returns_error r h;
  }
  Step-IsSound {s} (selects_done e over here) I = record {
    offers = λ e' h. I.offers e' h;
    closes = λ h. (e, over);
    collects = λ h. I.collects h;
    returns_error = λ r h. absurd (ground arith);
  }
  Step-IsSound {s} (selects_error e offered here) I = record {
    offers = λ e' h. absurd (ground arith);
    closes = λ h. absurd (ground arith);
    collects = λ h. I.collects h;
    returns_error = λ r h. inr (e, ground arith, I.offers e offered, refl);
  }
  Step-IsSound {s} (shuts_down r here) I = record {
    offers = λ e h. I.offers e h;
    closes = λ h. absurd (ground arith);
    collects = λ h. I.collects h;
    returns_error = λ r' h. inl (I.closes here);
  }

  Reach-IsSound : {ctx : Option Error} {s : Goroutines} → Reach H ctx s → IsSound s
  Reach-IsSound start = record {
    offers = λ e h. absurd (ground arith);
    closes = λ h. absurd (ground arith);
    collects = λ h. absurd (ground arith);
    returns_error = λ r h. absurd (ground arith);
  }
  Reach-IsSound (later before step) = Step-IsSound step (Reach-IsSound before)

  -- In every order of the steps, when `Listen` has returned: the context is over; or else the result is
  -- an error with which the listener failed, never that of a closed server, the serving goroutine has
  -- ended, and `receiveConfig` still waits for the context.
  pub Reach-returned :
      (ctx : Option Error) (s : Goroutines) (r : Option Error)
      → Reach H ctx s
      → s.listening ≡ returned r
      → IsOver s
        ⊎ ((e : Error) × (r ≡ some e)
            × IsFailure e
            × (s.serving ≡ ended)
            × (s.receiving ≡ watching))
  Reach-returned ctx s r reach done =
      let I = Reach-IsSound reach in
      elim (I.returns_error r done) [
        | inl over ↦ inl over
        | inr (e, failed, failure, out) ↦ elim (Receiving-cases s.receiving) [
          | inl waits ↦ inr (e, failed, failure, out, waits)
          | inr back ↦ inl (I.collects back)
        ]
      ]

  -- A failure is offered, and `Listen` is past its select.
  abbrev IsUnread : Error → Goroutines → Type 0
  IsUnread e s = (s.listening ≢ selecting) × (s.serving ≡ offering e)

  Step-IsUnread : {e : Error} {s t : Goroutines} → Step H s t → IsUnread e s → IsUnread e t
  Step-IsUnread (expires e' a) (past, stuck) = (past, stuck)
  Step-IsUnread (fails_serving e' f a) (past, stuck) = absurd (ground arith)
  Step-IsUnread (closes_serving d a) (past, stuck) = absurd (ground arith)
  Step-IsUnread (receives_done e' a b) (past, stuck) = (past, stuck)
  Step-IsUnread (selects_done e' a b) (past, stuck) = absurd (past b)
  Step-IsUnread (selects_error e' a b) (past, stuck) = absurd (past b)
  Step-IsUnread (shuts_down r a) (past, stuck) = (λ h. absurd (ground arith), stuck)

  Run-IsUnread : {e : Error} {s t : Goroutines} {n : ℕ} → Run H s n t → IsUnread e s → IsUnread e t
  Run-IsUnread no_step unread = unread
  Run-IsUnread (more_steps before step) unread = Step-IsUnread step (Run-IsUnread before unread)

  -- A failure that is offered when `Listen` no longer selects is never received: in every later state
  -- the serving goroutine still waits to send it.
  pub Run-offering :
      (s t : Goroutines) (n : ℕ) (e : Error)
      → Run H s n t
      → s.listening ≢ selecting
      → s.serving ≡ offering e
      → t.serving ≡ offering e
  Run-offering s t n e run past stuck = (Run-IsUnread run (past, stuck)).1
