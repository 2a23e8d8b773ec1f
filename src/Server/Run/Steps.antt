-- ===== src/Server/Run/Steps.antt =====
-- server/server.go: the steps of `Run`, one by one.
use luima.Prelude.{Bool, true, false, Option, none, some, ◌≡◌, subst}
use luima.Server.Run.{
  Place, selecting, shutting, closing, receiving, returned, State, Event, cancel, take_error,
  take_done, close, receive, listener_returns, shutdown_returns, after_close, step,
}

pub some_eq {ℓ} : {A : Type ℓ} {a b : A} → some a ≡ some b → a ≡ b
some_eq e = cc

module _ (E : Type 0) where
  abbrev pub state :
      Place E → Bool → Bool → Option (Option E) → Option (Option E) → Option (Option E) → State E
  state p c l d q sh = record {
    place = p;
    cancelled = c;
    listening = l;
    ended = d;
    errc = q;
    shut = sh;
  }

  -- The steps that there are, one by one.
  pub data Step : Event E → State E → State E → Type 0 where
    cancels :
        (p : Place E) (c l : Bool) (d q sh : Option (Option E))
        → Step cancel (state p c l d q sh) (state p true l d q sh)
    ends :
        (p : Place E) (c l : Bool) (q sh : Option (Option E)) (r : Option E)
        → Step (listener_returns r) (state p c l none q sh) (state p c l (some r) (some r) sh)
    dies :
        (c l : Bool) (d sh : Option (Option E)) (r : Option E)
        → Step take_error (state selecting c l d (some r) sh) (state (returned r) c l d none sh)
    stops :
        (l : Bool) (d q sh : Option (Option E))
        → Step take_done (state selecting true l d q sh) (state shutting true l d q sh)
    drains :
        (c l : Bool) (d q sh : Option (Option E)) (t : Option E)
        → Step (shutdown_returns t) (state shutting c l d q sh) (state closing c l d q (some t))
    closes :
        (c l : Bool) (d q sh : Option (Option E))
        → Step close (state closing c l d q sh) (state (after_close E sh) c false d q sh)
    receives :
        (c l : Bool) (d sh : Option (Option E)) (r : Option E)
        → Step receive (state receiving c l d (some r) sh) (state (returned r) c l d none sh)

  become : (ev : Event E) {s a b : State E} → some a ≡ some b → Step ev s a → Step ev s b
  become ev {s} e h = subst (Step ev s) (some_eq e) h

  pub step-Step : (ev : Event E) (s s' : State E) → step E ev s ≡ some s' → Step ev s s'
  unfolding step
  step-Step ev s s' e = go ev s.place s.cancelled s.listening s.ended s.errc s.shut e
    where
      go :
          (ev : Event E) (p : Place E) (c l : Bool) (d q sh : Option (Option E))
          → step E ev (state p c l d q sh) ≡ some s'
          → Step ev (state p c l d q sh) s'
      go cancel p c l d q sh e = become cancel e (cancels p c l d q sh)
      go (listener_returns r) p c l none q sh e = become (listener_returns r) e (ends p c l q sh r)
      go (listener_returns r) p c l (some x) q sh e = absurd (cc)
      go take_error selecting c l d none sh e = absurd (cc)
      go take_error selecting c l d (some r) sh e = become take_error e (dies c l d sh r)
      go take_error shutting c l d q sh e = absurd (cc)
      go take_error closing c l d q sh e = absurd (cc)
      go take_error receiving c l d q sh e = absurd (cc)
      go take_error (returned r) c l d q sh e = absurd (cc)
      go take_done selecting true l d q sh e = become take_done e (stops l d q sh)
      go take_done selecting false l d q sh e = absurd (cc)
      go take_done shutting c l d q sh e = absurd (cc)
      go take_done closing c l d q sh e = absurd (cc)
      go take_done receiving c l d q sh e = absurd (cc)
      go take_done (returned r) c l d q sh e = absurd (cc)
      go (shutdown_returns t) selecting c l d q sh e = absurd (cc)
      go (shutdown_returns t) shutting c l d q sh e =
          become (shutdown_returns t) e (drains c l d q sh t)
      go (shutdown_returns t) closing c l d q sh e = absurd (cc)
      go (shutdown_returns t) receiving c l d q sh e = absurd (cc)
      go (shutdown_returns t) (returned r) c l d q sh e = absurd (cc)
      go close selecting c l d q sh e = absurd (cc)
      go close shutting c l d q sh e = absurd (cc)
      go close closing c l d q sh e = become close e (closes c l d q sh)
      go close receiving c l d q sh e = absurd (cc)
      go close (returned r) c l d q sh e = absurd (cc)
      go receive selecting c l d q sh e = absurd (cc)
      go receive shutting c l d q sh e = absurd (cc)
      go receive closing c l d q sh e = absurd (cc)
      go receive receiving c l d none sh e = absurd (cc)
      go receive receiving c l d (some r) sh e = become receive e (receives c l d sh r)
      go receive (returned r) c l d q sh e = absurd (cc)
