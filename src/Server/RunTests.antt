-- ===== src/Server/RunTests.antt =====
-- server/server.go: runs of `Run`, with numbers for errors.
use luima.Prelude.{ℕ, true, false, List, [], ◌∷◌, none, some, ◌≡◌, refl, ◌⊎◌}
use luima.Server.Run.{
  Event, cancel, take_done, close, shutdown_returns, State, returned, receiving, first_state, step,
  steps,
}
use luima.Server.Run.Ends.{IsReturned, steps-IsReturned}
use luima.Server.Run.Waits.{IsWaiting, CanGo, steps-IsWaiting}

runs : Unit {0}
unfolding step steps
runs = tt

-- The context is cancelled before the server listens: the shutdown closes nothing, and Run closes the socket.
abbrev early : List (Event ℕ)
early = cancel ∷ (take_done ∷ (shutdown_returns none ∷ (close ∷ [])))

abbrev waiting : State ℕ
waiting = record {
  place = receiving;
  cancelled = true;
  listening = false;
  ended = none;
  errc = none;
  shut = some none;
}

steps-early : steps ℕ early (first_state ℕ) ≡ some waiting
unfolding runs
steps-early = refl

-- The shutdown times out.
abbrev late : List (Event ℕ)
late = cancel ∷ (take_done ∷ (shutdown_returns (some 7) ∷ (close ∷ [])))

abbrev timed_out : State ℕ
timed_out = record {
  place = returned (some 7);
  cancelled = true;
  listening = false;
  ended = none;
  errc = none;
  shut = some (some 7);
}

steps-late : steps ℕ late (first_state ℕ) ≡ some timed_out
unfolding runs
steps-late = refl

steps-IsReturned_example : IsReturned ℕ timed_out (some 7)
steps-IsReturned_example = steps-IsReturned ℕ late timed_out (some 7) steps-late refl

steps-IsWaiting_example : IsWaiting ℕ receiving waiting ⊎ CanGo ℕ waiting
steps-IsWaiting_example = steps-IsWaiting ℕ early waiting steps-early
