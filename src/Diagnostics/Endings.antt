-- ===== src/Diagnostics/Endings.antt =====
-- internal/diagnostics/server.go: how the goroutines of `Listen` end.
use kong_portal_controller.Base.{
  ℕ, zero, suc, ◌+◌, ◌≤◌, ◌<◌, ◌≡◌, ◌≢◌, refl, ◌⊎◌, inl, inr, true, Option, none, some, arith,
  Error,
}
use kong_portal_controller.Diagnostics.Listen.{
  Receiving-cases, IsOver, Serving, accepting, offering, ended, Receiving, watching, returned_done,
  Listening, selecting, closing, returned, Goroutines, HttpLib, after_serving, Step, expires,
  fails_serving, closes_serving, receives_done, selects_done, selects_error, shuts_down, started,
  Run, no_step, more_steps,
}

module _ (H : HttpLib) where
  abbrev to_expire : Option Error → ℕ
  to_expire none = 1
  to_expire (some e) = 0

  abbrev to_serve : Serving → ℕ
  to_serve accepting = 2
  to_serve (offering e) = 1
  to_serve ended = 0

  abbrev to_receive : Receiving → ℕ
  to_receive watching = 1
  to_receive returned_done = 0

  abbrev to_listen : Listening → ℕ
  to_listen selecting = 2
  to_listen closing = 1
  to_listen (returned r) = 0

  -- How many steps are left at most.
  abbrev steps_left : Goroutines → ℕ
  steps_left s =
      to_expire s.ctx + (to_serve s.serving + (to_receive s.receiving + to_listen s.listening))

  Step-steps_left : {s t : Goroutines} → Step H s t → steps_left t < steps_left s
  unfolding after_serving
  Step-steps_left (expires e a) = ground arith
  Step-steps_left (fails_serving e f a) = ground arith
  Step-steps_left (closes_serving d a) = ground arith
  Step-steps_left (receives_done e a b) = ground arith
  Step-steps_left (selects_done e a b) = ground arith
  Step-steps_left (selects_error e a b) = ground arith
  Step-steps_left (shuts_down r a) = ground arith

  Run-steps_left : {s t : Goroutines} {n : ℕ} → Run H s n t → n + steps_left t ≤ steps_left s
  Run-steps_left no_step = omega arith
  Run-steps_left (more_steps before step) =
      ground (arith, Run-steps_left before, Step-steps_left step)

  -- The context is over, `Listen` and `receiveConfig` have returned, and the serving goroutine is out of
  -- `ListenAndServe`.
  pub record IsEnded (s : Goroutines) : Type 0 where
    pub over : IsOver s
    pub result : Option Error
    pub listened : s.listening ≡ returned result
    pub received : s.receiving ≡ returned_done
    pub served : s.serving ≢ accepting

  Listening-cases :
      (l : Listening) → (l ≡ selecting) ⊎ ((l ≡ closing) ⊎ ((r : Option Error) × (l ≡ returned r)))
  Listening-cases selecting = inl refl
  Listening-cases closing = inr (inl refl)
  Listening-cases (returned r) = inr (inr (r, refl))

  Serving-cases : (v : Serving) → (v ≡ accepting) ⊎ (v ≢ accepting)
  Serving-cases accepting = inl refl
  Serving-cases (offering e) = inr (λ h. absurd (ground arith))
  Serving-cases ended = inr (λ h. absurd (ground arith))

  -- `Listen` is at its select, or has called `Shutdown`, or the serving goroutine has ended.
  abbrev IsClosing : Goroutines → Type 0
  IsClosing s = (s.listening ≡ selecting) ⊎ ((s.down ≡ true) ⊎ (s.serving ≡ ended))

  Step-IsClosing : {s t : Goroutines} → Step H s t → IsClosing s → IsClosing t
  Step-IsClosing (expires e a) I = I
  Step-IsClosing (fails_serving e f a) I = ground arith
  Step-IsClosing (closes_serving d a) I = inr (inl d)
  Step-IsClosing (receives_done e a b) I = I
  Step-IsClosing (selects_done e a b) I = inr (inl refl)
  Step-IsClosing (selects_error e a b) I = inr (inr refl)
  Step-IsClosing (shuts_down r a) I = ground arith

  Run-IsClosing : {s t : Goroutines} {n : ℕ} → Run H s n t → IsClosing s → IsClosing t
  Run-IsClosing no_step I = I
  Run-IsClosing (more_steps before step) I = Step-IsClosing step (Run-IsClosing before I)

  -- The listener does not fail by itself in this step.
  abbrev pub IsQuiet : {s t : Goroutines} → Step H s t → Type 0
  IsQuiet (fails_serving e f a) = ⊥
  IsQuiet (expires e a) = Unit
  IsQuiet (closes_serving d a) = Unit
  IsQuiet (receives_done e a b) = Unit
  IsQuiet (selects_done e a b) = Unit
  IsQuiet (selects_error e a b) = Unit
  IsQuiet (shuts_down r a) = Unit

  -- A run of so many steps in which the listener does not fail by itself.
  pub data QuietRun : Goroutines → ℕ → Goroutines → Type 0 where
    arrived : {s : Goroutines} → QuietRun s 0 s
    onward :
        {n : ℕ} {s t u : Goroutines} (step : Step H s t)
        → IsQuiet step
        → QuietRun t n u
        → QuietRun s (suc n) u

  -- Once the context is over there is such a step, or everything has ended.
  progress :
      (s : Goroutines)
      → IsOver s
      → IsClosing s
      → ((t : Goroutines) × (step : Step H s t) × IsQuiet step × IsOver t) ⊎ IsEnded s
  progress s (e, over) I = elim (Listening-cases s.listening) [
    | inl selects ↦ inl (_, selects_done e over selects, tt, (e, over))
    | inr (inl shuts) ↦ inl (_, shuts_down none shuts, tt, (e, over))
    | inr (inr (r, back)) ↦ elim (Receiving-cases s.receiving) [
      | inl waits ↦ inl (_, receives_done e over waits, tt, (e, over))
      | inr gone ↦ elim (Serving-cases s.serving) [
        | inl accepts ↦
            let down : s.down ≡ true = ground arith in
            inl (_, closes_serving down accepts, tt, (e, over))
        | inr out ↦ inr (record {
          over = (e, over);
          result = r;
          listened = back;
          received = gone;
          served = out;
        })
      ]
    ]
  ]

  -- So many steps are enough.
  continue :
      (k : ℕ) (s : Goroutines)
      → steps_left s ≤ k
      → IsOver s
      → IsClosing s
      → (m : ℕ) × (t : Goroutines) × QuietRun s m t × (m ≤ k) × IsEnded t
  continue zero s enough over I = elim (progress s over I) [
    | inr done ↦ (0, s, arrived, omega arith, done)
    | inl (t, step, quiet, over') ↦ absurd (ground (arith, Step-steps_left step))
  ]
  continue (suc k) s enough over I = elim (progress s over I) [
    | inr done ↦ (0, s, arrived, omega arith, done)
    | inl (t, step, quiet, over') ↦
        let (m, u, run, short, done) =
          continue k t (ground (arith, Step-steps_left step)) over' (Step-IsClosing step I) in
        (suc m, u, onward step quiet run, omega (arith, short), done)
  ]

  -- However the goroutines have run from the start until the context is over, they have taken at most six
  -- steps, and within six steps in all they can come to the end, without a further failure of the
  -- listener: `Listen` and `receiveConfig` have returned, and the serving goroutine is out of
  -- `ListenAndServe`.
  pub Run-ends :
      (ctx : Option Error) (s : Goroutines) (n : ℕ)
      → Run H (started H ctx) n s
      → IsOver s
      → (m : ℕ) × (t : Goroutines) × QuietRun s m t × (n + m ≤ 6) × IsEnded t
  Run-ends ctx s n run over =
      let (m, t, more, short, done) =
        continue (steps_left s) s (omega arith) over (Run-IsClosing run (inl refl)) in
      (m, t, more, ground (arith, Run-steps_left run, short), done)
