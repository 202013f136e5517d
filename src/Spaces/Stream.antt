-- ===== src/Spaces/Stream.antt =====
-- cmd/hm-cisco-spaces-collector/stream.go: the delays of `streamWithReconnect`. What a stream does, and
-- how it ends, is outside.
use home_metrics.Base.{
  ℕ, suc, ◌*◌, ◌^◌, ◌≤◌, ◌<◌, ◌≡◌, refl, ap, ◌∙◌, List, [], ◌∷◌, min, if◌then◌else◌, arith,
}
use native.Mathlib.Nat.{pow-succ'}
use home_metrics.Base.Int.{pos, ltb_ℤ, ◌*ℤ◌, wrap64}
use home_metrics.Base.Time.{Duration}
use home_metrics.Spaces.{Config}

-- The end of a turn of the loop.
unfoldable pub doubled : Config → Duration → Duration
unfolding ◌*ℤ◌
doubled c backoff =
    let twice = wrap64 (backoff *ℤ pos 2) in
    if ltb_ℤ c.reconnect_max_delay twice then c.reconnect_max_delay else twice

-- The delays after the streams, each stream with what it delivered before it ended.
unfoldable pub delays {ℓ} : {A : Type ℓ} → Config → Duration → List A → List Duration
delays c backoff [] = []
delays c backoff (stream ∷ streams) = backoff ∷ delays c (doubled c backoff) streams

unfoldable pub stream_with_reconnect {ℓ} : {A : Type ℓ} → Config → List A → List Duration
unfolding delays doubled
stream_with_reconnect c streams = delays c c.reconnect_min_delay streams

-- The minimum, doubled for each stream before, up to the maximum.
unfoldable pub doublings {ℓ} : {A : Type ℓ} → ℕ → ℕ → ℕ → List A → List Duration
doublings lo hi n [] = []
doublings lo hi n (stream ∷ streams) = pos (min hi (2 ^ n * lo)) ∷ doublings lo hi (suc n) streams

module _ (c : Config) (lo hi : ℕ) (least : c.reconnect_min_delay ≡ pos lo)
    (most : c.reconnect_max_delay ≡ pos hi) (positive : 0 < lo) (ordered : lo ≤ hi)
    (small : hi < 2 ^ 62) where
  doubled-min : (x : ℕ) → doubled c (pos (min hi x)) ≡ pos (min hi (2 * x))
  unfolding doubled ◌*ℤ◌
  doubled-min x = rw most (ground arith)

  delays-doublings {ℓ} :
      {A : Type ℓ} (n : ℕ) (streams : List A)
      → delays c (pos (min hi (2 ^ n * lo))) streams ≡ doublings lo hi n streams
  unfolding delays doublings
  delays-doublings n [] = refl
  delays-doublings n (s ∷ streams) =
      let next : 2 * (2 ^ n * lo) ≡ 2 ^ suc n * lo = rw (pow-succ' 2 n) (omega arith) in
      rw (doubled-min (2 ^ n * lo)) (
        rw next (
          ap (λ (t : List Duration). pos (min hi (2 ^ n * lo)) ∷ t)
            (delays-doublings (suc n) streams)))

  -- The delay after a stream depends on nothing but the number of streams before it: it is the
  -- minimum, doubled for each of them, and never more than the maximum. It is not set back after a
  -- stream that worked, however long and whatever it delivered. The bounds are positive, in order and
  -- below 2 ^ 62 ns.
  pub stream_with_reconnect-doublings {ℓ} :
      {A : Type ℓ} (streams : List A) → stream_with_reconnect c streams ≡ doublings lo hi 0 streams
  unfolding stream_with_reconnect
  stream_with_reconnect-doublings streams =
      let first : lo ≡ min hi (2 ^ 0 * lo) = omega arith in
      rw least (ap (λ t. delays c (pos t) streams) first ∙ delays-doublings 0 streams)
