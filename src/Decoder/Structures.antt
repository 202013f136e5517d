-- ===== src/Decoder/Structures.antt =====
-- cmd/hm-cisco-iot-orchestrator-collector/decoder.go: the walk over the structures of an
-- advertisement.
use mathlib.Core.List.{append_assoc}
use home_metrics.Base.{
  ℕ, zero, suc, ◌+◌, ◌-◌, ◌≤◌, ◌≡◌, refl, ap, ◌∙◌, List, [], ◌∷◌, ◌++◌, arith, length,
  length-append, take-append, drop-append, drop, Bool, false, ◌==◌, ◌&&◌, ◌||◌, ◌*◌, if◌then◌else◌,
}
use home_metrics.Decoder.{Bytes}
use home_metrics.Decoder.Payload.{structure_data, structures_loop, service_data_from_advertisement}

pub record Structure : Type 0 where
  pub ad_type : ℕ
  pub ad_data : Bytes

-- Independent of the code: a structure is its length, which counts the type, its type and its data.
unfoldable pub encode_structures : List Structure → Bytes
encode_structures [] = []
encode_structures (s ∷ ss) =
    (length s.ad_data + 1) ∷ s.ad_type ∷ (s.ad_data ++ encode_structures ss)

-- Independent of the code: the UUIDs whose service data are read, and a structure that carries service
-- data (type 0x16) of one of them, which stands in its first two bytes, the low byte first.
abbrev known_uuids : List ℕ
known_uuids = 0xfe6a ∷ 0xffe1 ∷ 0xfeaa ∷ 0xfe95 ∷ []

abbrev is_one_of : ℕ → List ℕ → Bool
is_one_of n [] = false
is_one_of n (u ∷ us) = n == u || is_one_of n us

abbrev has_known_uuid : Bytes → Bool
has_known_uuid (lo ∷ hi ∷ rest) = is_one_of (lo + 256 * hi) known_uuids
has_known_uuid _ = false

abbrev pub carries_service_data : Structure → Bool
carries_service_data s = s.ad_type == 0x16 && has_known_uuid s.ad_data

-- The data behind the UUID of each of these structures, in order.
unfoldable pub service_data_of : List Structure → List Bytes
service_data_of [] = []
service_data_of (s ∷ ss) =
    let more = service_data_of ss in
    if carries_service_data s then drop 2 s.ad_data ∷ more else more

structure_data-carries :
    (s : Structure) (out : List Bytes)
    → structure_data s.ad_type s.ad_data out
      ≡ (if carries_service_data s then drop 2 s.ad_data ∷ out else out)
unfolding structure_data
structure_data-carries s out = by_length s.ad_data
  where
    by_length :
        (xs : Bytes)
        → structure_data s.ad_type xs out
          ≡ (if s.ad_type == 0x16 && has_known_uuid xs then drop 2 xs ∷ out else out)
    by_length [] = ground arith
    by_length (lo ∷ []) = ground arith
    by_length (lo ∷ hi ∷ rest) = ground arith

-- Nothing, or padding that starts with a zero length.
unfoldable pub IsPadding : Bytes → Type 0
IsPadding [] = Unit {0}
IsPadding (b ∷ bs) = b ≡ 0

padding_stops : (k : ℕ) (pad : Bytes) → IsPadding pad → structures_loop k pad ≡ []
unfolding structures_loop IsPadding
padding_stops zero pad h = refl
padding_stops (suc k) [] h = refl
padding_stops (suc k) (b ∷ []) h = refl
padding_stops (suc k) (b ∷ c ∷ bs) h = rw h refl

structures_step :
    (k n t : ℕ) (xs rest : Bytes)
    → n ≡ length xs
    → structures_loop (suc k) ((n + 1) ∷ t ∷ (xs ++ rest))
      ≡ structure_data t xs (structures_loop k rest)
unfolding structures_loop
structures_step k n t xs rest h =
    let less : n + 1 - 1 ≡ length xs = omega (arith, h) in
    rw (less, take-append xs rest, drop-append xs rest) (ground (arith, length-append xs rest))

structures_loop-encode :
    (ss : List Structure) (k : ℕ) (pad : Bytes)
    → IsPadding pad
    → length (encode_structures ss) ≤ k
    → structures_loop k (encode_structures ss ++ pad) ≡ service_data_of ss
unfolding encode_structures service_data_of
structures_loop-encode [] k pad p h = padding_stops k pad p
structures_loop-encode (s ∷ ss) zero pad p h = absurd (omega arith)
structures_loop-encode (s ∷ ss) (suc k) pad p h =
    rw (append_assoc s.ad_data (encode_structures ss) pad) (
      structures_step k (length s.ad_data) s.ad_type s.ad_data (encode_structures ss ++ pad) refl
      ∙ ap (structure_data s.ad_type s.ad_data) (
          structures_loop-encode ss k pad p
            (omega (arith, length-append s.ad_data (encode_structures ss))))
      ∙ structure_data-carries s (service_data_of ss))

-- From an advertisement that is a sequence of structures, with or without padding after them, the
-- walk gives, in order and once each, the data behind the UUID of every structure of type 0x16 that begins
-- with one of the four known UUIDs, and nothing of the others.
pub service_data_from_advertisement-encode :
    (ss : List Structure) (pad : Bytes)
    → IsPadding pad
    → service_data_from_advertisement (encode_structures ss ++ pad) ≡ service_data_of ss
unfolding service_data_from_advertisement
service_data_from_advertisement-encode ss pad p =
    structures_loop-encode ss (length (encode_structures ss ++ pad)) pad p
      (omega (arith, length-append (encode_structures ss) pad))
