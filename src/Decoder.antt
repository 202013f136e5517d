-- ===== src/Decoder.antt =====
-- cmd/hm-cisco-iot-orchestrator-collector/decoder.go and helpers.go: measured values from the
-- payloads of Bluetooth advertisements and of Flower Care devices. A byte is a number below 256.
pub mod Values
pub mod Payload
pub mod Ranges
pub mod Structures
pub mod Xiaomi
use home_metrics.Base.{
  ℕ, zero, suc, ◌+◌, ◌*◌, ◌-◌, ◌/◌, ◌%◌, ◌^◌, Bool, true, false, List, [], ◌∷◌, ◌++◌, Option, none,
  some, ltb, leb, ◌==◌, ◌&&◌, ◌||◌, not, if◌then◌else◌, length, take, drop, get_or,
}
use home_metrics.Base.Int.{ℤ, pos, negsuc}
use home_metrics.Base.Float.{Float64}
use home_metrics.Decoder.Values

abbrev pub Bytes : Type 0
Bytes = List ℕ

-- `hex.EncodeToString` and `hex.DecodeString`, which also takes capital digits.
abbrev hex_digit : ℕ → ℕ
hex_digit n = if ltb n 10 then n + b'0' else n + 87

unfoldable pub hex_encode : Bytes → List ℕ
hex_encode [] = []
hex_encode (b ∷ bs) = hex_digit (b / 16 % 16) ∷ hex_digit (b % 16) ∷ hex_encode bs

abbrev hex_value : ℕ → Option ℕ
hex_value c =
    if leb b'0' c && leb c b'9'
    then some (c - b'0')
    else if leb b'a' c && leb c b'f'
    then some (c - 87)
    else if leb b'A' c && leb c b'F'
    then some (c - 55)
    else none

unfoldable pub hex_decode : List ℕ → Option Bytes
hex_decode [] = some []
hex_decode (c ∷ []) = none
hex_decode (c ∷ d ∷ cs) = elim (hex_value c) [
  | none ↦ none
  | some h ↦ elim (hex_value d) [
    | none ↦ none
    | some l ↦ elim (hex_decode cs) [ none ↦ none | some bs ↦ some ((h * 16 + l) ∷ bs) ]
  ]
]

-- `uint16(a) | uint16(b)<<8` of two bytes, and its kin.
abbrev pub le16 : ℕ → ℕ → ℕ
le16 a b = a + b * 256

abbrev pub le32 : ℕ → ℕ → ℕ → ℕ → ℕ
le32 a b c d = a + b * 2 ^ 8 + c * 2 ^ 16 + d * 2 ^ 24

abbrev pub int8 : ℕ → ℤ
int8 b = if ltb b 128 then pos b else negsuc (255 - b)

abbrev pub int16 : ℕ → ℤ
int16 w = if ltb w (2 ^ 15) then pos w else negsuc (2 ^ 16 - 1 - w)

abbrev starts_with : Bytes → Bytes → Bool
starts_with [] data' = true
starts_with (m ∷ ms) [] = false
starts_with (m ∷ ms) (b ∷ data') = (m == b) && starts_with ms data'

-- `none` stands for -1.
unfoldable pub index_marker : Bytes → Bytes → Option ℕ
index_marker [] marker = if starts_with marker [] then some 0 else none
index_marker (b ∷ data') marker =
    let more = index_marker data' marker in
    if starts_with marker (b ∷ data')
    then some 0
    else elim more [ none ↦ none | some i ↦ some (suc i) ]

-- What follows the first marker, from its index on.
unfoldable pub from_marker : Bytes → Bytes → Bytes
unfolding index_marker
from_marker data' marker = elim (index_marker data' marker) [ none ↦ [] | some i ↦ drop i data' ]

unfoldable pub looks_like_fe95 : Bytes → Bool
looks_like_fe95 data' =
    leb 15 (length data')
    && (get_or data' 0 0 == 0x71)
    && (get_or data' 1 0 == 0x20)
    && (get_or data' 2 0 == 0x98)
    && (get_or data' 3 0 == 0x00)

module _ (fl : Float64) where
  -- `floatPtr(float64(n))`.
  abbrev number : ℕ → Option fl.F
  number n = some (fl.of_int (pos n))

  unfoldable pub round : fl.F → ℕ → fl.F
  round v places =
      let scale = fl.of_int (pos (10 ^ places)) in fl.div (fl.round_int (fl.mul v scale)) scale

  -- `float64(n) / d`, rounded.
  unfoldable pub scaled : ℤ → ℕ → ℕ → fl.F
  unfolding round
  scaled n d places = round (fl.div (fl.of_int n) (fl.of_int (pos d))) places

  -- `float64(value) <= 100`, else nothing.
  abbrev percent : ℕ → Option fl.F → Option fl.F
  percent n old = if fl.le (fl.of_int (pos n)) (fl.of_int (pos 100)) then number n else old

  -- The values of the object `object_id`, as the switch of `decodeXiaomiFE95` sets them.
  unfoldable pub fe95_object : ℕ → Bytes → Values.Values fl.F → Values.Values fl.F
  unfolding scaled
  fe95_object object_id value r =
      if object_id == 0x1004
      then (if leb 2 (length value)
          then record r {
            temperature_c = some (scaled (int16 (le16 (get_or value 0 0) (get_or value 1 0))) 10 1);
          }
          else r)
      else if object_id == 0x1007
      then (if leb 3 (length value)
          then record r {
            lux = number (le32 (get_or value 0 0) (get_or value 1 0) (get_or value 2 0) 0);
          }
          else r)
      else if object_id == 0x1008
      then (if leb 1 (length value)
          then record r { soil_moisture_percent = number (get_or value 0 0) }
          else r)
      else if object_id == 0x1009
      then (if leb 2 (length value)
          then record r { conductivity_us_cm = number (le16 (get_or value 0 0) (get_or value 1 0)) }
          else r)
      else r

  -- The loop of `decodeXiaomiFE95` on the bytes from `offset` on. Each turn takes three bytes at
  -- least, so as many turns as there are bytes are enough.
  unfoldable pub fe95_loop : ℕ → Bytes → Values.Values fl.F → Values.Values fl.F
  unfolding fe95_object
  fe95_loop zero data' r = r
  fe95_loop (suc k) (lo ∷ hi ∷ n ∷ rest) r =
      let more = fe95_loop k (drop n rest) (fe95_object (le16 lo hi) (take n rest) r) in
      if ltb (length rest) n then r else more
  fe95_loop (suc k) _ r = r

  unfoldable pub decode_fe95 : Bytes → Values.Values fl.F
  unfolding fe95_loop looks_like_fe95
  decode_fe95 data' =
      if looks_like_fe95 data'
      then fe95_loop (length data') (drop 12 data') (Values.no_values fl.F)
      else Values.no_values fl.F
