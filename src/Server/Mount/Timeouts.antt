-- ===== src/Server/Mount/Timeouts.antt =====
-- server/server.go: the timeouts of `New`.
use luima.Prelude.{ℕ, zero, suc, ◌≡◌, refl, ◌↔◌}
use luima.Prelude.Int.{ℤ, pos, negsuc}
use luima.Server.Mount.{Platform, Config, resolve_timeout, new_timeouts}

abbrev pub IsNegative : ℤ → Type 0
IsNegative (pos n) = ⊥
IsNegative (negsuc n) = Unit

resolve_timeout-zero_iff :
    (from_fiber from_luima : ℤ) (def : ℕ)
    → (resolve_timeout from_fiber from_luima (pos (suc def)) ≡ pos 0)
      ↔ ((from_fiber ≡ pos 0) × IsNegative from_luima)
unfolding resolve_timeout
resolve_timeout-zero_iff (pos zero) (negsuc n) def = ((λ _. (refl, tt)), λ _. refl)
resolve_timeout-zero_iff (pos zero) (pos zero) def = ((λ h. absurd (cc)), λ h. absurd h.1)
resolve_timeout-zero_iff (pos zero) (pos (suc n)) def = ((λ h. absurd (cc)), λ h. absurd h.1)
resolve_timeout-zero_iff (pos (suc m)) l def = ((λ h. absurd (cc)), λ h. absurd (cc))
resolve_timeout-zero_iff (negsuc m) l def = ((λ h. absurd (cc)), λ h. absurd (cc))

-- A deadline of the server that `New` builds is off, which for fasthttp is zero, exactly where the
-- timeout of luima is negative and the one of Fiber is zero.
pub new_timeouts-off_iff :
    (p : Platform) (cfg : Config p)
    → (((new_timeouts cfg).0 ≡ pos 0)
        ↔ ((cfg.fiber_read_timeout ≡ pos 0) × IsNegative cfg.read_timeout))
      × (((new_timeouts cfg).1 ≡ pos 0)
          ↔ ((cfg.fiber_write_timeout ≡ pos 0) × IsNegative cfg.write_timeout))
unfolding new_timeouts
new_timeouts-off_iff p cfg = (
  resolve_timeout-zero_iff cfg.fiber_read_timeout cfg.read_timeout _,
  resolve_timeout-zero_iff cfg.fiber_write_timeout cfg.write_timeout _,
)
