-- ===== src/Server/Run/Waits.antt =====
-- server/server.go: what `Run` waits for.
use luima.Prelude.{Bool, true, false, List, Option, none, some, ◌≡◌, refl, sym, ◌⊎◌, inl, inr}
use luima.Server.Run.{
  Place, selecting, shutting, closing, receiving, returned, State, Event, take_error, take_done,
  close, receive, first_state, step, steps,
}
use luima.Server.Run.Steps.{state}
use luima.Server.Run.Ends.{IsSound, reached-Sound}

module _ (E : Type 0) where
  -- What Run may wait for: its context or its listener, the shutdown, or a listener whose socket is closed.
  abbrev pub IsWaiting : Place E → State E → Type 0
  IsWaiting selecting s = (s.cancelled ≡ false) × ((s.ended ≡ none) × (s.listening ≡ true))
  IsWaiting shutting s = s.cancelled ≡ true
  IsWaiting closing s = ⊥
  IsWaiting receiving s = (s.ended ≡ none) × (s.listening ≡ false)
  IsWaiting (returned r) s = Unit

  -- A step that Run takes of itself.
  abbrev pub IsOwn : Event E → Type 0
  IsOwn take_error = Unit
  IsOwn take_done = Unit
  IsOwn close = Unit
  IsOwn receive = Unit
  IsOwn _ = ⊥

  abbrev pub CanGo : State E → Type 0
  CanGo s = (ev : Event E) × (s' : State E) × IsOwn ev × (step E ev s ≡ some s')

  waits_or_goes :
      (p : Place E) (c l : Bool) (d q sh : Option (Option E))
      → IsSound E p (state E p c l d q sh)
      → IsWaiting p (state E p c l d q sh) ⊎ CanGo (state E p c l d q sh)
  unfolding step
  waits_or_goes selecting c l d (some r) sh h = inr (take_error, _, tt, refl)
  waits_or_goes selecting true l d none sh h = inr (take_done, _, tt, refl)
  waits_or_goes selecting false l d none sh (a, (b, x)) = inl (refl, (sym b, x))
  waits_or_goes shutting c l d q sh (a, (b, x)) = inl x
  waits_or_goes closing c l d q sh h = inr (close, _, tt, refl)
  waits_or_goes receiving c l d none sh (a, (b, (x, y))) = inl (sym b, x)
  waits_or_goes receiving c l d (some r) sh h = inr (receive, _, tt, refl)
  waits_or_goes (returned r) c l d q sh h = inl tt

  -- Wherever a run of Run stands, it can take a step of itself, or it waits: at its select for a context
  -- that is not done and a listener that has not ended; for the shutdown, once the context is done; or
  -- for the end of a listener whose socket it has closed; or it has returned.
  pub steps-IsWaiting :
      (evs : List (Event E)) (s : State E)
      → steps E evs (first_state E) ≡ some s
      → IsWaiting s.place s ⊎ CanGo s
  steps-IsWaiting evs s e =
      waits_or_goes s.place s.cancelled s.listening s.ended s.errc s.shut (reached-Sound E evs s e)
