-- ===== src/Server/Run/Ends.antt =====
-- server/server.go: what `Run` has returned, and what it leaves behind.
use luima.Prelude.{
  Bool, true, false, List, [], ◌∷◌, Option, none, some, ◌≡◌, refl, ◌≢◌, sym, subst, ◌⊎◌, inl, inr,
  Option-cases,
}
use luima.Server.Run.{
  Place, selecting, shutting, closing, receiving, returned, State, Event, first_state, after_close,
  step, steps,
}
use luima.Server.Run.Steps.{
  some_eq, state, Step, cancels, ends, dies, stops, drains, closes, receives, step-Step,
}

module _ (E : Type 0) where
  -- What Run has returned, and what it leaves.
  abbrev pub IsReturned : State E → Option E → Type 0
  IsReturned s r =
      ((s.shut ≡ none) × (s.ended ≡ some r))
      ⊎ ((s.listening ≡ false)
          × (((e : E) × (s.shut ≡ some (some e)) × (r ≡ some e))
              ⊎ ((s.shut ≡ some none) × (s.ended ≡ some r))))

  -- What holds wherever Run stands.
  abbrev pub IsSound : Place E → State E → Type 0
  IsSound selecting s = (s.shut ≡ none) × ((s.errc ≡ s.ended) × (s.listening ≡ true))
  IsSound shutting s = (s.shut ≡ none) × ((s.errc ≡ s.ended) × (s.cancelled ≡ true))
  IsSound closing s = (s.shut ≢ none) × ((s.errc ≡ s.ended) × (s.cancelled ≡ true))
  IsSound receiving s =
      (s.shut ≡ some none) × ((s.errc ≡ s.ended) × ((s.listening ≡ false) × (s.cancelled ≡ true)))
  IsSound (returned r) s = IsReturned s r

  abbrev pub Sound : State E → Type 0
  Sound s = IsSound s.place s

  cancel-Sound :
      (p : Place E) (c l : Bool) (d q sh : Option (Option E))
      → IsSound p (state E p c l d q sh)
      → IsSound p (state E p true l d q sh)
  cancel-Sound selecting c l d q sh h = h
  cancel-Sound shutting c l d q sh (a, (b, x)) = (a, (b, refl))
  cancel-Sound closing c l d q sh (a, (b, x)) = (a, (b, refl))
  cancel-Sound receiving c l d q sh (a, (b, (x, y))) = (a, (b, (x, refl)))
  cancel-Sound (returned r) c l d q sh h = h

  listener-Sound :
      (p : Place E) (c l : Bool) (q sh : Option (Option E)) (r : Option E)
      → IsSound p (state E p c l none q sh)
      → IsSound p (state E p c l (some r) (some r) sh)
  listener-Sound selecting c l q sh r (a, (b, x)) = (a, (refl, x))
  listener-Sound shutting c l q sh r (a, (b, x)) = (a, (refl, x))
  listener-Sound closing c l q sh r (a, (b, x)) = (a, (refl, x))
  listener-Sound receiving c l q sh r (a, (b, x)) = (a, (refl, x))
  listener-Sound (returned t) c l q sh r (inl (a, b)) = absurd (cc)
  listener-Sound (returned t) c l q sh r (inr (a, inl b)) = inr (a, inl b)
  listener-Sound (returned t) c l q sh r (inr (a, inr (b, x))) = absurd (cc)

  close-Sound :
      (c l : Bool) (d q sh : Option (Option E))
      → IsSound closing (state E closing c l d q sh)
      → Sound (state E (after_close E sh) c false d q sh)
  close-Sound c l d q none (a, (b, x)) = absurd (a refl)
  close-Sound c l d q (some none) (a, (b, x)) = (refl, (b, (refl, x)))
  close-Sound c l d q (some (some e)) (a, (b, x)) = inr (refl, inl (e, refl, refl))

  Step-Sound : {ev : Event E} {s s' : State E} → Step E ev s s' → Sound s → Sound s'
  Step-Sound (cancels p c l d q sh) h = cancel-Sound p c l d q sh h
  Step-Sound (ends p c l q sh r) h = listener-Sound p c l q sh r h
  Step-Sound (dies c l d sh r) (a, (b, x)) = inl (a, sym b)
  Step-Sound (stops l d q sh) (a, (b, x)) = (a, (b, refl))
  Step-Sound (drains c l d q sh t) (a, x) = ((λ n. absurd (cc)), x)
  Step-Sound (closes c l d q sh) h = close-Sound c l d q sh h
  Step-Sound (receives c l d sh r) (a, (b, (x, y))) = inr (x, inr (a, sym b))

  steps-Sound :
      (evs : List (Event E)) (s s' : State E) → Sound s → steps E evs s ≡ some s' → Sound s'
  unfolding steps
  steps-Sound [] s s' h e = subst Sound (some_eq e) h
  steps-Sound (ev ∷ evs) s s' h e = elim (Option-cases (step E ev s)) [
    | inl a ↦ absurd (cc)
    | inr (mid, a) ↦ steps-Sound evs mid s' (Step-Sound (step-Step E ev s mid a) h) (cc)
  ]

  pub reached-Sound :
      (evs : List (Event E)) (s : State E) → steps E evs (first_state E) ≡ some s → Sound s
  reached-Sound evs s = steps-Sound evs (first_state E) s (refl, (refl, refl))

  -- Where Run has returned, its listener had ended before any shutdown and its error is what Run returned;
  -- or the listener's socket is closed, and Run returned the error of the shutdown, or, where that had
  -- none, what the listener had ended with.
  pub steps-IsReturned :
      (evs : List (Event E)) (s : State E) (r : Option E)
      → steps E evs (first_state E) ≡ some s
      → s.place ≡ returned r
      → IsReturned s r
  steps-IsReturned evs s r e p = subst (λ p. IsSound p s) p (reached-Sound evs s e)
