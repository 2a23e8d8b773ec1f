-- ===== src/Server/RateLimit/Refines.antt =====
-- What `RateLimit` promises, without its map: the keys charged since a window began.
use luima.Prelude.{
  ℕ, ◌+◌, Bool, not, List, [], ◌∷◌, ◌≡◌, refl, ap, ◌∙◌, arith, Text, text_eq, ltb, leb,
  if◌then◌else◌, Bool-cases, inl, inr,
}
use luima.Server.RateLimit.{Limiter, new_limiter, count, roll, charge, take_turn}
use luima.Server.RateLimit.Window.{Event, run, count-bump}

-- A window: until when it lasts, and the keys of the requests in it, the last one first.
pub record Span : Type 0 where
  pub until : ℕ
  pub seen : List Text

abbrev pub no_span : Span
no_span = record { until = 0; seen = [] }

abbrev pub occurrences : Text → List Text → ℕ
occurrences k [] = 0
occurrences k (j ∷ seen) = (if text_eq j k then 1 else 0) + occurrences k seen

-- The window that a request at a time falls in: the one that lasts, or a new one from then on.
abbrev pub span_at : ℕ → ℕ → Span → Span
span_at per now w = if ltb w.until now then record { until = now + per; seen = [] } else w

abbrev pub seen_at : ℕ → ℕ → Text → Span → Span
seen_at per now k w = record {
  until = (span_at per now w).until;
  seen = k ∷ (span_at per now w).seen;
}

-- A request is let through where its window has at most `n` of its key, itself included.
abbrev pub allowed : ℕ → ℕ → Span → List (ℕ × Text) → List Event
allowed n per w [] = []
allowed n per w ((now, k) ∷ rest) =
    record { time = now; key = k; passed = leb (occurrences k (seen_at per now k w).seen) n }
    ∷ allowed n per (seen_at per now k w) rest

-- The map has the number of the requests of each key in the window.
abbrev Represents : Limiter → Span → Type 0
Represents l w = (l.window_end ≡ w.until) × ((k : Text) → count k l.hits ≡ occurrences k w.seen)

Represents-span_at :
    (per now : ℕ) (l : Limiter) (w : Span)
    → Represents l w
    → Represents (roll per now l) (span_at per now w)
unfolding roll count
Represents-span_at per now l w (e, h) = elim (Bool-cases (ltb w.until now)) [
  | inl a ↦ rw (e, a) (refl, λ k. refl)
  | inr a ↦ rw (e, a) (refl, h)
]

Represents-seen_at :
    (per now : ℕ) (k : Text) (l : Limiter) (w : Span)
    → Represents l w
    → Represents (charge k (roll per now l)) (seen_at per now k w)
unfolding charge
Represents-seen_at per now k l w r =
    let (e, h) = Represents-span_at per now l w r in
    (e, λ j. omega (arith, count-bump j k (roll per now l).hits, h j))

abbrev event : ℕ → Text → Bool → Event
event now k passed = record { time = now; key = k; passed = passed }

not_over : (n c : ℕ) → not (ltb n c) ≡ leb c n
not_over n c = ground arith

run-allowed :
    (n per : ℕ) (l : Limiter) (w : Span) (trace : List (ℕ × Text))
    → Represents l w
    → run n per l trace ≡ allowed n per w trace
unfolding run take_turn
run-allowed n per l w [] r = refl
run-allowed n per l w ((now, k) ∷ rest) r =
    let r' = Represents-seen_at per now k l w r in
    let l' = charge k (roll per now l) in
    let w' = seen_at per now k w in
    let passed : not (ltb n (count k l'.hits)) ≡ leb (occurrences k w'.seen) n =
      not_over n (count k l'.hits) ∙ ap (λ c. leb c n) (r'.1 k) in
    ap (λ b. event now k b ∷ run n per l' rest) passed
    ∙ ap (◌∷◌ (event now k (leb (occurrences k w'.seen) n))) (run-allowed n per l' w' rest r')

-- From its start on, RateLimit lets through what the windows allow, over any sequence of requests: those of
-- which the window that lasts, or that they begin where none does, has at most n of their key.
pub run-refines :
    (n per : ℕ) (trace : List (ℕ × Text))
    → run n per new_limiter trace ≡ allowed n per no_span trace
unfolding count
run-refines n per trace = run-allowed n per new_limiter no_span trace (refl, λ k. refl)
