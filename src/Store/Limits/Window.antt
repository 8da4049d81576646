-- ===== src/Store/Limits/Window.antt =====
-- Requests of any addresses that reach the server's script in the order of their times, and how a
-- counter covers the requests that its window holds. The script is atomic, so an order of its runs
-- covers concurrent requests as well.
use try_it_now.Base.{
  ℕ, suc, ◌+◌, ◌*◌, ◌≤◌, ◌<◌, ◌≡◌, refl, String, Option, List, [], ◌∷◌, arith, ltb, ◌&&◌,
  if◌then◌else◌, str_eq, All, Bool-cases, inl, inr,
}
use try_it_now.Domain.{second}
use try_it_now.Valkey.{Valkey, Keyspace, Counter, live_count}
use try_it_now.Store.Limits.{or_zero, rate_limit_script}
use try_it_now.Store.Limits.Counters.{bumped, live_count-bumped}

-- How many of the times lie less than `window` before `t`.
unfoldable pub recent : ℕ → ℕ → List ℕ → ℕ
recent window t [] = 0
recent window t (s ∷ older) =
    let rest = recent window t older in if ltb t (s + window) then suc rest else rest

-- Newest first: up to each of the times, at most `n` lie within its window, itself included.
abbrev pub AtMost : ℕ → ℕ → List ℕ → Type 0
AtMost n window [] = Unit {0}
AtMost n window (s ∷ older) = (recent window s (s ∷ older) ≤ n) × AtMost n window older

pub record Request : Type 0 where
  pub at : ℕ
  pub ip : String

-- Each request comes no earlier than the one before it.
abbrev pub InOrder : ℕ → List Request → Type 0
InOrder t [] = Unit {0}
InOrder t (q ∷ qs) = (t ≤ q.at) × InOrder q.at qs

-- The times at which `ip` was allowed, newest first.
unfoldable pub allowed_times : Valkey → ℕ → ℕ → String → List Request → List ℕ → Keyspace → List ℕ
allowed_times v hourly_limit daily_limit ip [] history ks = history
allowed_times v hourly_limit daily_limit ip (q ∷ qs) history ks =
    let (allowed, ks') = rate_limit_script v q.at q.ip hourly_limit daily_limit ks in
    allowed_times v hourly_limit daily_limit ip qs
      (if allowed && str_eq q.ip ip then q.at ∷ history else history) ks'

pub no_times : (window t n : ℕ) → recent window t [] ≤ n
unfolding recent
no_times window t n = omega arith

recent_mono :
    (window t u : ℕ) (times : List ℕ) → t ≤ u → recent window u times ≤ recent window t times
unfolding recent
recent_mono window t u [] h = omega arith
recent_mono window t u (s ∷ older) h = ground (arith, recent_mono window t u older h)

-- What lies before `now` is gone from a window that begins after it.
recent_past :
    (window now t : ℕ) (times : List ℕ)
    → All (λ s. s ≤ now) times
    → now + window ≤ t
    → recent window t times ≡ 0
unfolding recent
recent_past window now t [] a h = refl
recent_past window now t (s ∷ older) a h = ground (arith, recent_past window now t older a.1 h)

All-mono :
    (now t : ℕ) (times : List ℕ) → now ≤ t → All (λ s. s ≤ now) times → All (λ s. s ≤ t) times
All-mono now t [] h a = tt
All-mono now t (s ∷ older) h a = (omega arith, All-mono now t older h a.1)

-- From `now` on, the counter reads at least what the window holds.
pub record Covers (seconds : ℕ) (now : ℕ) (history : List ℕ) (c : Option Counter) : Type 0 where
  pub past : All (λ s. s ≤ now) history
  pub counted : (t : ℕ) → now ≤ t → recent (seconds * second) t history ≤ or_zero (live_count t c)

module _ (seconds now t : ℕ) (history : List ℕ) (c : Option Counter) (h : now ≤ t) where
  pub Covers-later : Covers seconds now history c → Covers seconds t history c
  Covers-later v = record {
    past = All-mono now t history h v.past;
    counted = λ u g. v.counted u (omega arith);
  }

  counted_bumped :
      Covers seconds now history c
      → (u : ℕ) → t ≤ u
      → recent (seconds * second) u (t ∷ history) ≤ or_zero (live_count u (bumped t seconds c))
  unfolding recent
  counted_bumped v u g = elim (Bool-cases (ltb u (t + seconds * second))) [
    | inl early ↦
        rw (live_count-bumped t seconds u c)
          (ground (arith, v.counted t h, recent_mono (seconds * second) t u history g))
    | inr late ↦
        rw (live_count-bumped t seconds u c)
          (ground (arith, recent_past (seconds * second) now u history v.past))
  ]

  pub Covers-bumped :
      Covers seconds now history c → Covers seconds t (t ∷ history) (bumped t seconds c)
  Covers-bumped v = record {
    past = (omega arith, All-mono now t history h v.past);
    counted = counted_bumped v;
  }

  -- The limit was not reached before the request.
  pub AtMost-cons :
      (limit : ℕ)
      → Covers seconds now history c
      → or_zero (live_count t c) < limit
      → recent (seconds * second) t (t ∷ history) ≤ limit
  unfolding recent
  AtMost-cons limit v g = ground (arith, v.counted t h)
