-- ===== src/Domain/Lifetime.antt =====
-- internal/domain/instance.go: `IsExpired` against `TTLRemaining`.
use try_it_now.Base.{ℕ, ◌+◌, ◌<◌, ◌≡◌, true, arith}
use try_it_now.Domain.{Instance, is_expired, ttl_remaining, second}

-- An expired instance has no time left.
pub ttl_remaining_of_expired :
    (now : ℕ) (i : Instance) → is_expired now i ≡ true → ttl_remaining now i ≡ 0
unfolding is_expired ttl_remaining
ttl_remaining_of_expired now i h = ground arith

-- An instance whose expiry in seconds is set and that has no time left counts as expired one second
-- later at the latest: the two clocks differ by less than the rounding of `Unix`.
pub is_expired_of_ttl_remaining :
    (now : ℕ) (i : Instance)
    → 0 < i.expires_at_unix
    → ttl_remaining now i ≡ 0
    → is_expired (now + second) i ≡ true
unfolding is_expired ttl_remaining
is_expired_of_ttl_remaining now i p q = ground arith
