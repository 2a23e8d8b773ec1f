-- ===== src/Server/Run.antt =====
-- server/server.go: `Run`, as the steps of its two goroutines. The application that New builds is what its
-- two methods that Run calls may answer: Listener, in the goroutine, and ShutdownWithContext.
pub mod Steps
pub mod Ends
pub mod Waits
use luima.Prelude.{Bool, true, false, List, [], ◌∷◌, Option, none, some, ◌>>=◌, if◌then◌else◌}

-- An error is a value of a type that Run does not look at; none is nil.
module _ (E : Type 0) where
  -- Where Run stands: at its select, in ShutdownWithContext, before ln.Close, before the last receive, or at
  -- its end with what it returned.
  pub data Place : Type 0 where
    selecting shutting closing receiving : Place
    returned : Option E → Place

  pub record State : Type 0 where
    pub place : Place
    -- ctx is done
    pub cancelled : Bool
    -- ln is open
    pub listening : Bool
    -- what Listener has returned to the goroutine, none while it serves
    pub ended : Option (Option E)
    -- errc, a channel that holds one value
    pub errc : Option (Option E)
    -- shutErr, none before ShutdownWithContext has returned
    pub shut : Option (Option E)

  -- What happens: ctx is cancelled, Listener returns and the goroutine sends its error, Run takes one of the
  -- two cases of its select, ShutdownWithContext returns, ln is closed, or the last receive is served.
  pub data Event : Type 0 where
    cancel take_error take_done close receive : Event
    listener_returns shutdown_returns : Option E → Event

  -- What Run does before it has a goroutine: it returns, New panics, with the listener left open, or it goes on
  -- with a listener.
  pub data Begun : Type 0 where
    at_once : Option E → Begun
    panicked : Begun
    running : State → Begun

  abbrev pub first_state : State
  first_state = record {
    place = selecting;
    cancelled = false;
    listening = true;
    ended = none;
    errc = none;
    shut = none;
  }

  -- Whether ctx is done already, what net.Listen answers, and whether cfg has a schema, without which the Mount of
  -- New panics.
  unfoldable pub begin : Bool → Option E → Bool → Begun
  begin cancelled bind has_schema = if cancelled then at_once none else elim bind as (λ _. Begun) [
    | some e ↦ at_once (some e)
    | none ↦ if has_schema then running first_state else panicked
  ]

  abbrev pub at_select : State → Option State
  at_select s = elim s.place [
    | selecting ↦ some s
    | shutting ↦ none
    | closing ↦ none
    | receiving ↦ none
    | returned r ↦ none
  ]

  abbrev pub at_shutdown : State → Option State
  at_shutdown s = elim s.place [
    | selecting ↦ none
    | shutting ↦ some s
    | closing ↦ none
    | receiving ↦ none
    | returned r ↦ none
  ]

  abbrev pub at_close : State → Option State
  at_close s = elim s.place [
    | selecting ↦ none
    | shutting ↦ none
    | closing ↦ some s
    | receiving ↦ none
    | returned r ↦ none
  ]

  abbrev pub at_receive : State → Option State
  at_receive s = elim s.place [
    | selecting ↦ none
    | shutting ↦ none
    | closing ↦ none
    | receiving ↦ some s
    | returned r ↦ none
  ]

  -- Run behind ln.Close: `if shutErr != nil { return shutErr }`.
  abbrev pub after_close : Option (Option E) → Place
  after_close none = receiving
  after_close (some none) = receiving
  after_close (some (some e)) = returned (some e)

  -- A receive from errc, at which Run returns.
  abbrev pub received : State → Option State
  received s = elim s.errc [
    | none ↦ none
    | some r ↦ some (record s { place = returned r; errc = none })
  ]

  -- One step; none where the event cannot happen.
  unfoldable pub step : Event → State → Option State
  step cancel s = some (record s { cancelled = true })
  step (listener_returns r) s = elim s.ended [
    | none ↦ some (record s { ended = some r; errc = some r })
    | some _ ↦ none
  ]
  step take_error s = at_select s >>= received
  step take_done s =
      at_select s >>= λ s. if s.cancelled then some (record s { place = shutting }) else none
  step (shutdown_returns r) s =
      at_shutdown s >>= λ s. some (record s { place = closing; shut = some r })
  step close s =
      at_close s >>= λ s. some (record s { place = after_close s.shut; listening = false })
  step receive s = at_receive s >>= received

  -- The steps of a run, in their order.
  unfoldable pub steps : List Event → State → Option State
  steps [] s = some s
  steps (ev ∷ evs) s = step ev s >>= steps evs
