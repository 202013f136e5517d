-- ===== src/Echonet.antt =====
-- cmd/hm-echonet-collector/main.go: the ECHONET Lite frames, the values in them, and the loop that
-- waits for the answer to a request. A byte is a number below 256.
pub mod Esv
pub mod Parsing
pub mod Values
pub mod Readings
pub mod Request
use Prim.Native.Nat.{bit_or}
use home_metrics.Echonet.Esv
use home_metrics.Base.Int.{ℤ, pos, negsuc}
use Prim.Native.String.{String}
use home_metrics.Base.Float.{Float64}
use home_metrics.Base.{
  ℕ, zero, suc, ◌+◌, ◌*◌, ◌-◌, ◌/◌, ◌%◌, ◌^◌, Bool, true, false, List, [], ◌∷◌, Option, none, some,
  ltb, leb, ◌==◌, ◌&&◌, ◌||◌, not, if◌then◌else◌, length, take, drop,
}

abbrev pub Bytes : Type 0
Bytes = List ℕ

-- `type eoj [3]byte`.
pub record Eoj : Type 0 where
  pub byte0 : ℕ
  pub byte1 : ℕ
  pub byte2 : ℕ

abbrev pub eoj : ℕ → ℕ → ℕ → Eoj
eoj a b c = record { byte0 = a; byte1 = b; byte2 = c }

abbrev pub eq_eoj : Eoj → Eoj → Bool
eq_eoj a b = (a.byte0 == b.byte0) && (a.byte1 == b.byte1) && (a.byte2 == b.byte2)

pub record PropertyValue : Type 0 where
  pub seoj : Eoj
  pub epc : ℕ
  pub edt : Bytes

pub record Frame : Type 0 where
  pub tid : ℕ
  pub seoj : Eoj
  pub deoj : Eoj
  pub esv : ℕ
  pub properties : List PropertyValue

pub data FrameError : Type 0 where
  invalid_frame truncated_header truncated_data : FrameError

pub data Result {ℓ} (E : Type 0) (A : Type ℓ) : Type ℓ where
  ok : A → Result E A
  err : E → Result E A

infixl 5 ◌>>=◌
abbrev pub ◌>>=◌ {ℓ κ} :
    {E : Type 0} {A : Type ℓ} {B : Type κ} → Result E A → (A → Result E B) → Result E B
ok a >>= f = f a
err e >>= f = err e

abbrev pub controller : Eoj
controller = eoj 0x05 0xff 0x01

-- `frame = append(frame, epc, 0x00)` for each property asked for.
unfoldable pub append_epcs : Bytes → Bytes
append_epcs [] = []
append_epcs (epc ∷ epcs) = epc ∷ 0x00 ∷ append_epcs epcs

-- `byte(tid >> 8)`, `byte(tid)` and `byte(len(epcs))` keep the low eight bits.
unfoldable pub build_get_frame : ℕ → Eoj → Bytes → Bytes
build_get_frame tid deoj epcs =
    0x10
    ∷ 0x81
    ∷ tid / 256 % 256
    ∷ tid % 256
    ∷ controller.byte0
    ∷ controller.byte1
    ∷ controller.byte2
    ∷ deoj.byte0
    ∷ deoj.byte1
    ∷ deoj.byte2
    ∷ Esv.get
    ∷ length epcs % 256
    ∷ append_epcs epcs

-- The loop of `parseFrame`, `opc` rounds; the bytes are those from `pos` on.
unfoldable pub parse_properties : ℕ → Eoj → Bytes → Result FrameError (List PropertyValue)
parse_properties zero seoj rest = ok []
parse_properties (suc i) seoj [] = err truncated_header
parse_properties (suc i) seoj (epc ∷ []) = err truncated_header
parse_properties (suc i) seoj (epc ∷ pdc ∷ rest) =
    let more = parse_properties i seoj (drop pdc rest) in
    if ltb (length rest) pdc
    then err truncated_data
    else more >>= λ props. ok (record { seoj = seoj; epc = epc; edt = take pdc rest } ∷ props)

unfoldable pub parse_frame : Bytes → Result FrameError Frame
parse_frame (h ∷ k ∷ t0 ∷ t1 ∷ s0 ∷ s1 ∷ s2 ∷ d0 ∷ d1 ∷ d2 ∷ esv ∷ opc ∷ rest) =
    if not (h == 0x10) || not (k == 0x81)
    then err invalid_frame
    else parse_properties opc (eoj s0 s1 s2) rest >>= λ props. ok record {
      tid = t0 * 256 + t1;
      seoj = eoj s0 s1 s2;
      deoj = eoj d0 d1 d2;
      esv = esv;
      properties = props;
    }
parse_frame _ = err invalid_frame

-- The decoders of `metrics`.
pub data Decoder : Type 0 where
  signed unsigned : Decoder

pub record MetricConfig : Type 0 where
  pub eoj : Eoj
  pub epc : ℕ
  pub metric : String
  pub unit : String
  pub raw_property : String
  pub decoder : Decoder

abbrev configured : Eoj → ℕ → String → String → String → Decoder → MetricConfig
configured e epc metric unit raw_property decoder = record {
  eoj = e;
  epc = epc;
  metric = metric;
  unit = unit;
  raw_property = raw_property;
  decoder = decoder;
}

abbrev pub metrics : List MetricConfig
metrics =
    configured (eoj 0x02 0x79 0x01) 0xe0 "solar_generation_w" "W"
      "instantaneousElectricPowerGeneration" signed
    ∷ configured (eoj 0x02 0x7d 0x01) 0xe4 "battery_remaining" "%" "remainingCapacity3" unsigned
    ∷ configured (eoj 0x02 0x7d 0x01) 0xd3 "battery_power_w" "W"
        "instantaneousChargingAndDischargingElectricPower" signed
    ∷ []

unfoldable pub find_metric : List MetricConfig → Eoj → ℕ → Option MetricConfig
find_metric [] source epc = none
find_metric (m ∷ ms) source epc =
    let more = find_metric ms source epc in
    if eq_eoj m.eoj source && (m.epc == epc) then some m else more

unfoldable pub metric_for : Eoj → ℕ → Option MetricConfig
unfolding find_metric
metric_for source epc = find_metric metrics source epc

-- `value = (value << 8) | uint64(b)` for each byte.
unfoldable pub big_endian : ℕ → Bytes → ℕ
big_endian value [] = value
big_endian value (b ∷ data') = big_endian (bit_or (value * 2 ^ 8 % 2 ^ 64) b) data'

-- `int64(w)` of a 64-bit word.
abbrev pub int64_of : ℕ → ℤ
int64_of w = if ltb w (2 ^ 63) then pos w else negsuc (2 ^ 64 - 1 - w)

-- `z >> shift` on signed numbers rounds down.
abbrev pub shift_right : ℤ → ℕ → ℤ
shift_right (pos n) shift = pos (n / 2 ^ shift)
shift_right (negsuc n) shift = negsuc (n / 2 ^ shift)

pub data ValueError : Type 0 where
  unsupported_length : ℕ → ValueError

module _ (fl : Float64) where
  unfoldable pub decode_unsigned : Bytes → Result ValueError fl.F
  unfolding big_endian
  decode_unsigned data' =
      if (length data' == 0) || ltb 8 (length data')
      then err (unsupported_length (length data'))
      else ok (fl.of_int (pos (big_endian 0 data')))

  unfoldable pub decode_signed : Bytes → Result ValueError fl.F
  unfolding big_endian
  decode_signed data' =
      let shift = 64 - length data' * 8 in
      if (length data' == 0) || ltb 8 (length data')
      then err (unsupported_length (length data'))
      else ok (fl.of_int (shift_right (int64_of (big_endian 0 data' * 2 ^ shift % 2 ^ 64)) shift))

  unfoldable pub decode : Decoder → Bytes → Result ValueError fl.F
  unfolding decode_unsigned decode_signed
  decode signed = decode_signed
  decode unsigned = decode_unsigned
