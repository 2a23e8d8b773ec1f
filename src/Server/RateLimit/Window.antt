-- ===== src/Server/RateLimit/Window.antt =====
-- What a fixed window bounds, over any sequence of requests in the order of the clock.
use luima.Prelude.{
  ℕ, ◌+◌, ◌-◌, ◌*◌, ◌≤◌, ◌<◌, Bool, true, false, not, ◌&&◌, List, [], ◌∷◌, ◌≡◌, refl, arith, Text,
  text_eq, text_eq_iff, ltb, leb, if◌then◌else◌, Bool-cases, inl, inr,
}
use luima.Server.RateLimit.{Limiter, count, bump, roll, charge, take_turn}

pub count-bump :
    (j k : Text) (hits : List (Text × ℕ))
    → count j (bump k hits) ≡ count j hits + (if text_eq k j then 1 else 0)
unfolding count bump
count-bump j k [] = ground arith
count-bump j k ((i, c) ∷ hits) =
    ground (arith, text_eq_iff i k, text_eq_iff i j, text_eq_iff k j, count-bump j k hits)

-- A request of a key at a time, and whether it was let through.
pub record Event : Type 0 where
  pub time : ℕ
  pub key : Text
  pub passed : Bool

-- The requests one after the other, from a state of the limiter.
unfoldable pub run : ℕ → ℕ → Limiter → List (ℕ × Text) → List Event
run n per l [] = []
run n per l ((now, k) ∷ rest) =
    record { time = now; key = k; passed = not (take_turn n per now k l).1 }
    ∷ run n per (take_turn n per now k l).0 rest

-- How many requests of the key were let through from `lo` to `hi`, both included.
unfoldable pub passed_in : Text → ℕ → ℕ → List Event → ℕ
passed_in k lo hi [] = 0
passed_in k lo hi (e ∷ es) =
    (if text_eq e.key k && (e.passed && (leb lo e.time && leb e.time hi)) then 1 else 0)
    + passed_in k lo hi es

-- The clock does not run backwards.
abbrev pub SortedFrom : ℕ → List (ℕ × Text) → Type 0
SortedFrom t [] = Unit
SortedFrom t ((now, k) ∷ rest) = (t ≤ now) × SortedFrom now rest

-- How many requests of the key there are.
unfoldable pub requests : Text → List (ℕ × Text) → ℕ
requests k [] = 0
requests k ((_, j) ∷ rest) = (if text_eq j k then 1 else 0) + requests k rest

module _ (n per : ℕ) (k : Text) where
  passed_in_late :
      (lo hi t : ℕ) (l : Limiter) (trace : List (ℕ × Text))
      → hi < t
      → SortedFrom t trace
      → passed_in k lo hi (run n per l trace) ≡ 0
  unfolding passed_in run
  passed_in_late lo hi t l [] h s = refl
  passed_in_late lo hi t l ((now, j) ∷ rest) h (le, s) =
      let late = passed_in_late lo hi now (take_turn n per now j l).0 rest (omega arith) s in
      ground arith

  -- A turn inside the window.
  turn_inside :
      (now : ℕ) (j : Text) (l : Limiter)
      → now ≤ l.window_end
      → ((take_turn n per now j l).0.window_end ≡ l.window_end)
        × (count k (take_turn n per now j l).0.hits
            ≡ count k l.hits + (if text_eq j k then 1 else 0))
        × ((take_turn n per now j l).1 ≡ ltb n (count j (take_turn n per now j l).0.hits))
  unfolding take_turn roll charge
  turn_inside now j l h = (ground arith, ground (arith, count-bump k j l.hits), refl)

  -- In the current window a key is let through as often as is left of `n`.
  passed_in_window :
      (lo hi t : ℕ) (l : Limiter) (trace : List (ℕ × Text))
      → hi ≤ l.window_end
      → SortedFrom t trace
      → passed_in k lo hi (run n per l trace) ≤ n - count k l.hits
  unfolding passed_in run
  passed_in_window lo hi t l [] h s = omega arith
  passed_in_window lo hi t l ((now, j) ∷ rest) h (le, s) =
      elim (Bool-cases (leb now l.window_end)) [
        | inl inside ↦
            let (w, c, v) = turn_inside now j l (ground arith) in
            let ih = passed_in_window lo hi now (take_turn n per now j l).0 rest (omega arith) s in
            ground (arith, text_eq_iff j k)
        | inr past ↦
            let late = passed_in_late lo hi now (take_turn n per now j l).0 rest (ground arith) s in
            ground arith
      ]

  abbrev opened : ℕ → Limiter
  opened now = record { hits = []; window_end = now + per }

  -- After the window has ended a request opens a new one, whatever was counted.
  run_past :
      (now : ℕ) (j : Text) (l : Limiter) (rest : List (ℕ × Text))
      → l.window_end < now
      → run n per l ((now, j) ∷ rest) ≡ run n per (opened now) ((now, j) ∷ rest)
  unfolding run take_turn roll
  run_past now j l rest h =
      let past : ltb l.window_end now ≡ true = ground arith in
      let inside : ltb (now + per) now ≡ false = ground arith in rw (past, inside)

  passed_in_opened :
      (lo hi now : ℕ) (j : Text) (l : Limiter) (rest : List (ℕ × Text))
      → hi ≤ now + per
      → l.window_end < now
      → SortedFrom now rest
      → passed_in k lo hi (run n per l ((now, j) ∷ rest)) ≤ n
  passed_in_opened lo hi now j l rest h past s =
      rw (run_past now j l rest past) (
        omega (arith, passed_in_window lo hi now (opened now) ((now, j) ∷ rest) h (omega arith, s)))

  -- Up to one window's width past the end of the current window.
  passed_in_two :
      (lo hi t : ℕ) (l : Limiter) (trace : List (ℕ × Text))
      → hi ≤ l.window_end + per
      → SortedFrom t trace
      → passed_in k lo hi (run n per l trace) ≤ n - count k l.hits + n
  unfolding passed_in run
  passed_in_two lo hi t l [] h s = omega arith
  passed_in_two lo hi t l ((now, j) ∷ rest) h (le, s) = elim (Bool-cases (leb now l.window_end)) [
    | inl inside ↦
        let (w, c, v) = turn_inside now j l (ground arith) in
        let ih = passed_in_two lo hi now (take_turn n per now j l).0 rest (omega arith) s in
        ground (arith, text_eq_iff j k)
    | inr past ↦
        let one = passed_in_opened lo hi now j l rest (ground arith) (ground arith) s in omega arith
  ]

  -- In any interval of the width of a window a key is let through at most 2n times, whatever the state
  -- at its start, where the clock does not run backwards.
  pub passed_in_interval :
      (lo t : ℕ) (l : Limiter) (trace : List (ℕ × Text))
      → SortedFrom t trace
      → passed_in k lo (lo + per) (run n per l trace) ≤ 2 * n
  unfolding passed_in run
  passed_in_interval lo t l [] s = omega arith
  passed_in_interval lo t l ((now, j) ∷ rest) (le, s) = elim (Bool-cases (leb lo now)) [
    | inr before ↦
        let ih = passed_in_interval lo now (take_turn n per now j l).0 rest s in ground arith
    | inl begun ↦ elim (Bool-cases (leb now l.window_end)) [
      | inl inside ↦
          let two =
            passed_in_two lo (lo + per) now l ((now, j) ∷ rest) (ground arith) (ground arith, s) in
          omega arith
      | inr past ↦
          let one = passed_in_opened lo (lo + per) now j l rest (ground arith) (ground arith) s in
          omega arith
    ]
  ]

  -- A key with no more requests than are left to it is never limited.
  abbrev pub AllPass : List Event → Type 0
  AllPass [] = Unit
  AllPass (e ∷ es) = (e.key ≡ k → e.passed ≡ true) × AllPass es

  count-turn :
      (now : ℕ) (j : Text) (l : Limiter)
      → count k (take_turn n per now j l).0.hits ≤ count k l.hits + (if text_eq j k then 1 else 0)
  unfolding take_turn roll charge count
  count-turn now j l = ground (arith, count-bump k j l.hits, count-bump k j [])

  pub turn_over :
      (now : ℕ) (j : Text) (l : Limiter)
      → (take_turn n per now j l).1 ≡ ltb n (count j (take_turn n per now j l).0.hits)
  unfolding take_turn
  turn_over now j l = refl

  -- Whatever other keys send, a key with at most `n` requests in the whole sequence, what was counted
  -- for it before included, has every one let through.
  pub run-AllPass :
      (l : Limiter) (trace : List (ℕ × Text))
      → requests k trace + count k l.hits ≤ n
      → AllPass (run n per l trace)
  unfolding run requests
  run-AllPass l [] h = tt
  run-AllPass l ((now, j) ∷ rest) h =
      let le = count-turn now j l in
      let over = turn_over now j l in
      (
        λ same. ground (arith, text_eq_iff j k),
        run-AllPass (take_turn n per now j l).0 rest (ground arith),
      )
