-- ===== src/Server/Mount/Guards.antt =====
-- server/server.go and server/depth.go: what the extensions that `Mount` uses keep from running.
use luima.Prelude.{ℕ, zero, suc, ◌≤◌, Bool, true, List, [], ◌∷◌, ◌++◌, none, some, ◌≡◌}
use luima.Prelude.Int.{ℤ, pos, negsuc}
use luima.Server.Query.{SelectionSet, Fragments, IsAcyclic}
use luima.Server.Depth.{max_depth}
use luima.Server.Depth.Relation.{Nests}
use luima.Server.Depth.Limit.{max_depth_iff}
use luima.Server.Introspection.{no_introspection}
use luima.Server.Introspection.Reach.{Selects}
use luima.Server.Introspection.Exact.{no_introspection_iff}
use luima.Server.Mount.{
  Platform, Config, Call, use_extension, Extension, no_introspection_extension, max_depth_extension,
  fixed_complexity_limit, set_query_cache, calls_if, unless_negative, default_calls, server_calls,
}

-- An extension is used by one of the calls.
pub data Uses {p : Platform} (e : Extension) : List (Call p) → Type 0 where
  now : {calls : List (Call p)} → Uses e (use_extension e ∷ calls)
  later : {c : Call p} {calls : List (Call p)} → Uses e calls → Uses e (c ∷ calls)

Uses-append_left :
    {p : Platform} {e : Extension} {cs : List (Call p)} (ds : List (Call p))
    → Uses e cs
    → Uses e (cs ++ ds)
Uses-append_left ds now = now
Uses-append_left ds (later u) = later (Uses-append_left ds u)

Uses-append_right :
    {p : Platform} {e : Extension} (cs : List (Call p)) {ds : List (Call p)}
    → Uses e ds
    → Uses e (cs ++ ds)
Uses-append_right [] u = u
Uses-append_right (c ∷ cs) u = later (Uses-append_right cs u)

-- The limit that a field of the configuration stands for: none where it is negative, the default where it
-- is zero.
abbrev pub IsLimit : ℤ → ℕ → ℕ → Type 0
IsLimit (pos zero) def n = n ≡ def
IsLimit (pos (suc k)) def n = n ≡ suc k
IsLimit (negsuc k) def n = ⊥

unless_negative-eq-some :
    (z : ℤ) (def n : ℕ) → IsLimit z def n → unless_negative z def ≡ some (pos n)
unfolding unless_negative
unless_negative-eq-some (pos zero) def n h = rw h
unless_negative-eq-some (pos (suc k)) def n h = rw h
unless_negative-eq-some (negsuc k) def n h = absurd h

module _ (p : Platform) where
  server_calls-Uses_introspection :
      (cfg : Config p)
      → cfg.disable_introspection ≡ true
      → Uses no_introspection_extension (server_calls p cfg)
  unfolding server_calls default_calls
  server_calls-Uses_introspection cfg off = Uses-append_left _ (
      Uses-append_right (calls_if p (unless_negative cfg.query_cache 1000) set_query_cache)
        (rw off now))

  server_calls-Uses_max_depth :
      (cfg : Config p) (n : ℕ)
      → IsLimit cfg.max_depth 15 n
      → Uses (max_depth_extension (pos n)) (server_calls p cfg)
  unfolding server_calls default_calls
  server_calls-Uses_max_depth cfg n h = Uses-append_left _ (
      Uses-append_right (calls_if p (unless_negative cfg.query_cache 1000) set_query_cache) (
        later (
          Uses-append_right
            (calls_if p (unless_negative cfg.complexity_limit 1000)
              (λ n. use_extension (fixed_complexity_limit n)))
            (rw (unless_negative-eq-some cfg.max_depth 15 n h) now))))

  -- gqlgen runs an operation only where no extension that the server uses returns an error for it.
  pub record HearsExtensions (runs : List (Call p) → Fragments → SelectionSet → Bool) : Type 0 where
    pub no_introspection :
        (calls : List (Call p)) (frags : Fragments) (operation : SelectionSet)
        → Uses no_introspection_extension calls
        → runs calls frags operation ≡ true
        → no_introspection frags operation ≡ some none
    pub max_depth :
        (n : ℕ) (calls : List (Call p)) (frags : Fragments) (operation : SelectionSet)
        → Uses (max_depth_extension (pos n)) calls
        → runs calls frags operation ≡ true
        → max_depth n frags operation ≡ some none

  -- Where gqlgen runs an operation only if no extension that some call of Use added returns an error for it,
  -- whatever calls Configure makes, its own uses of extensions included: an operation that the mounted server
  -- runs selects neither __schema nor __type, through no fragment, where DisableIntrospection is set; and it
  -- nests no deeper than MaxDepth, or than 15 where that is zero, where MaxDepth is not negative and the
  -- document has no fragment cycle.
  pub server-IsGuarded :
      (runs : List (Call p) → Fragments → SelectionSet → Bool)
      → HearsExtensions runs
      → (cfg : Config p) (frags : Fragments) (operation : SelectionSet)
      → runs (server_calls p cfg) frags operation ≡ true
      → (cfg.disable_introspection ≡ true → ¬ Selects frags operation)
        × ((n : ℕ)
            → IsLimit cfg.max_depth 15 n
            → IsAcyclic frags
            → (k : ℕ) → Nests frags operation k
            → k ≤ n)
  server-IsGuarded runs heard cfg frags operation ran = (
    (λ off.
        (no_introspection_iff frags operation).1.0
          (heard.no_introspection _ frags operation (server_calls-Uses_introspection cfg off) ran)),
    λ n limit acyclic.
        (max_depth_iff n frags operation acyclic).0
          (heard.max_depth n _ frags operation (server_calls-Uses_max_depth cfg n limit) ran),
  )
