-- ===== src/Connect/Backoff.antt =====
-- cmd/hm-cisco-iot-orchestrator-collector/main.go: `reconnectBackoff`, the delays before the MQTT
-- connection is tried again. A duration is an `int64`.
use home_metrics.Base.{
  ℕ, suc, ◌*◌, ◌^◌, ◌≤◌, ◌<◌, ◌≡◌, refl, ◌∙◌, List, [], ◌∷◌, min, if◌then◌else◌, arith,
}
use native.Mathlib.Nat.{pow-succ'}
use home_metrics.Base.Int.{pos, leb_ℤ, ltb_ℤ, ◌*ℤ◌, wrap64}
use home_metrics.Base.Time.{Duration, second}

pub record ReconnectBackoff : Type 0 where
  pub minimum : Duration
  pub maximum : Duration
  pub current : Duration

abbrev clamped : Duration → Duration → ReconnectBackoff
clamped lo hi = record { minimum = lo; maximum = if ltb_ℤ hi lo then lo else hi; current = lo }

unfoldable pub new_reconnect_backoff : Duration → Duration → ReconnectBackoff
new_reconnect_backoff minimum maximum =
    clamped (if leb_ℤ minimum (pos 0) then pos second else minimum) maximum

unfoldable pub reset : ReconnectBackoff → ReconnectBackoff
reset b = record b { current = b.minimum }

-- `Next` returns the delay; the doubling wraps around.
unfoldable pub next : ReconnectBackoff → ReconnectBackoff × Duration
next b =
    let doubled = wrap64 (b.current *ℤ pos 2) in
    (record b { current = if ltb_ℤ b.maximum doubled then b.maximum else doubled }, b.current)

-- What happens to the connection, as far as the backoff sees it.
pub data Event : Type 0 where
  subscribed : Event
  ended : Event

-- The backoff after events, the newest first.
unfoldable pub after : List Event → ReconnectBackoff → ReconnectBackoff
unfolding reset next
after [] b = b
after (subscribed ∷ events) b = reset (after events b)
after (ended ∷ events) b = (next (after events b)).0

-- How often the connection has ended since it was last subscribed.
unfoldable pub failures : List Event → ℕ
failures [] = 0
failures (subscribed ∷ events) = 0
failures (ended ∷ events) = suc (failures events)

next-doubles :
    (lo hi x : ℕ)
    → 0 < hi
    → hi < 2 ^ 62
    → (next (record { minimum = pos lo; maximum = pos hi; current = pos (min hi x) })).0
      ≡ record { minimum = pos lo; maximum = pos hi; current = pos (min hi (2 * x)) }
unfolding next ◌*ℤ◌
next-doubles lo hi x p h = ground arith

-- The backoff in closed form.
after-closed :
    (lo hi : ℕ) (events : List Event)
    → 0 < lo
    → lo ≤ hi
    → hi < 2 ^ 62
    → after events (new_reconnect_backoff (pos lo) (pos hi)) ≡ record {
      minimum = pos lo;
      maximum = pos hi;
      current = pos (min hi (2 ^ failures events * lo));
    }
unfolding after failures
after-closed lo hi [] p q h = unfold new_reconnect_backoff in ground arith
after-closed lo hi (subscribed ∷ events) p q h =
    rw (after-closed lo hi events p q h) (unfold reset in ground arith)
after-closed lo hi (ended ∷ events) p q h = rw (after-closed lo hi events p q h) (
    next-doubles lo hi (2 ^ failures events * lo) (omega arith) h
    ∙ rw (pow-succ' 2 (failures events)) (ground arith))

-- The delay that `Next` returns before an attempt to connect, whatever has happened before: the
-- minimum, doubled for each time that the connection has ended since it was last subscribed, and never
-- more than the maximum. The minimum is positive and at most the maximum, and the maximum is below
-- 2 ^ 62 ns.
pub next-delay :
    (lo hi : ℕ) (events : List Event)
    → 0 < lo
    → lo ≤ hi
    → hi < 2 ^ 62
    → (next (after events (new_reconnect_backoff (pos lo) (pos hi)))).1
      ≡ pos (min hi (2 ^ failures events * lo))
unfolding next
next-delay lo hi events p q h = rw (after-closed lo hi events p q h) refl
