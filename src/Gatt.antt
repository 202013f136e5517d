-- ===== src/Gatt.antt =====
-- cmd/hm-cisco-iot-orchestrator-collector: gatt_control.go and flowercare.go, the control of a device
-- through its GATT characteristics. The control API behind `controlPost` is a parameter: its requests
-- act on a state `D` that the model knows nothing of, and fail with errors `E`.
pub mod History
pub mod Session
pub mod Schedule
use home_metrics.Base.{
  ℕ, ◌+◌, ◌/◌, ◌%◌, Bool, true, false, List, [], ◌∷◌, Option, none, some, ltb, ◌==◌, ◌||◌, not,
  if◌then◌else◌, length, get_or,
}
use home_metrics.Base.Float.{Float64}
use home_metrics.Base.Time.{Time}
use home_metrics.Base.Text.{Text, codes, trim_space}
use home_metrics.Store.{is_blank}
use home_metrics.Decoder.{Bytes, hex_decode, hex_encode, le16, le32}
use home_metrics.Decoder.Values.{Values}
use home_metrics.Decoder.Payload
use home_metrics.Decoder.Payload.{GattError, Decoded, decode_history}

pub data ReadError (E : Type 0) : Type 0 where
  control : E → ReadError E
  empty_hex_value : ReadError E
  bad_hex_value : Text → ReadError E
  epoch_too_short : Bytes → ReadError E
  init_too_short : Bytes → ReadError E
  entry_invalid : GattError → ReadError E
  index_not_positive : ReadError E
  device_id_required : ReadError E

pub data Answer (E A : Type 0) : Type 0 where
  ok : A → Answer E A
  err : ReadError E → Answer E A

-- A computation that sends requests and may fail.
abbrev pub Gatt : Type 0 → Type 0 → Type 0 → Type 0
Gatt D E A = D → D × Answer E A

abbrev pub continue : {D E A B : Type 0} → (A → Gatt D E B) → D × Answer E A → D × Answer E B
continue f (d, ok a) = f a d
continue f (d, err e) = (d, err e)

infixl 5 ◌>>=◌ ◌>>◌
unfoldable pub ◌>>=◌ : {D E A B : Type 0} → Gatt D E A → (A → Gatt D E B) → Gatt D E B
(m >>= f) d = continue f (m d)

abbrev pub ◌>>◌ : {D E B : Type 0} → Gatt D E (Unit {0}) → Gatt D E B → Gatt D E B
m >> k = m >>= λ _. k

abbrev pub pure : {D E A : Type 0} → A → Gatt D E A
pure a d = (d, ok a)

abbrev pub fail : {D E A : Type 0} → ReadError E → Gatt D E A
fail e d = (d, err e)

abbrev pub guard : {D E : Type 0} → Bool → ReadError E → Gatt D E (Unit {0})
guard true e = pure tt
guard false e = fail e

-- The requests of the control API for one device. The answer to a read is the text of its value; the
-- clock is that of the host.
pub record ControlApi (D E : Type 0) : Type 0 where
  pub connect : Gatt D E (Unit {0})
  pub disconnect : Gatt D E (Unit {0})
  pub read : Text → Gatt D E Text
  pub write : Text → Text → Gatt D E (Unit {0})
  pub now : D → Time

-- `strings.ReplaceAll` with the empty text, of one character.
abbrev pub without : ℕ → Text → Text
without k [] = []
without k (c ∷ s) = if c == k then without k s else c ∷ without k s

abbrev pub trim_0x : Text → Text
trim_0x (c ∷ d ∷ s) = if c == b'0' then (if d == b'x' then s else c ∷ d ∷ s) else c ∷ d ∷ s
trim_0x s = s

abbrev decoded_hex : {E : Type 0} → Text → Option Bytes → Answer E Bytes
decoded_hex value none = err (bad_hex_value value)
decoded_hex value (some data') = ok data'

unfoldable pub decode_hex_value : {E : Type 0} → Text → Answer E Bytes
unfolding trim_space hex_decode
decode_hex_value value =
    let digits = trim_0x (without b':' (without b' ' (trim_space value))) in
    if is_blank digits then err empty_hex_value else decoded_hex digits (hex_decode digits)

abbrev pub flower_care_epoch : Text
flower_care_epoch = codes "00001a12-0000-1000-8000-00805f9b34fb"

abbrev pub flower_care_history_command : Text
flower_care_history_command = codes "00001a10-0000-1000-8000-00805f9b34fb"

abbrev pub flower_care_history_data : Text
flower_care_history_data = codes "00001a11-0000-1000-8000-00805f9b34fb"

-- The time and the values of an entry of the history.
abbrev pub Entry : Float64 → Type 0
Entry fl = Time × Values fl.F

abbrev pub entry_of :
    {D E : Type 0} (fl : Float64) → ℕ → Decoded (Entry fl) → Gatt D E (ℕ × Option (Entry fl))
entry_of fl count (Payload.err e) = fail (entry_invalid e)
entry_of fl count (Payload.ok entry) = pure (count, some entry)

module _ {D E : Type 0} (api : ControlApi D E) where
  unfoldable pub control_read : Text → Gatt D E Bytes
  unfolding decode_hex_value ◌>>=◌
  control_read characteristic = do value ← api.read characteristic; λ d. (d, decode_hex_value value)

  unfoldable pub control_write : Text → Bytes → Gatt D E (Unit {0})
  unfolding hex_encode
  control_write characteristic payload = api.write characteristic (hex_encode payload)

  -- A request that ends a session; an error of it is only logged.
  unfoldable pub with_session : {A : Type 0} → Gatt D E A → Gatt D E A
  unfolding ◌>>=◌
  with_session body = do
    api.connect
    λ d. let (d', answer) = body d in ((api.disconnect d').0, answer)

  host_time : Gatt D E Time
  host_time d = (d, ok (api.now d))

  module _ (fl : Float64) where
    -- The part of the session that reads the entry itself.
    unfoldable pub read_payload : ℕ → ℕ → ℕ → Time → Gatt D E (ℕ × Option (Entry fl))
    unfolding control_read control_write decode_history ◌>>=◌
    read_payload index count epoch host = do
      control_write flower_care_history_command (0xa1 ∷ index % 256 ∷ index / 256 % 256 ∷ [])
      payload ← control_read flower_care_history_data
      entry_of fl count (decode_history fl payload epoch host)

    abbrev pub read_if : Bool → ℕ → ℕ → ℕ → Time → Gatt D E (ℕ × Option (Entry fl))
    read_if true index count epoch host = pure (count, none)
    read_if false index count epoch host = read_payload index count epoch host

    unfoldable pub read_in_session : ℕ → Gatt D E (ℕ × Option (Entry fl))
    unfolding control_read control_write host_time read_payload ◌>>=◌
    read_in_session index = do
      p ← control_read flower_care_epoch
      guard (not (ltb (length p) 4)) (epoch_too_short p)
      host ← host_time
      control_write flower_care_history_command (0xa0 ∷ 0x00 ∷ 0x00 ∷ [])
      q ← control_read flower_care_history_data
      guard (not (ltb (length q) 2)) (init_too_short q)
      let count = le16 (get_or q 0 0) (get_or q 1 0)
      let epoch = le32 (get_or p 0 0) (get_or p 1 0) (get_or p 2 0) (get_or p 3 0)
      read_if ((count == 0) || ltb count index) index count epoch host

    -- `readGATTFlowerCareHistoryEntry`: the count of entries, and the entry if there is one.
    unfoldable pub read_history_entry : Text → ℕ → Gatt D E (ℕ × Option (Entry fl))
    unfolding with_session read_in_session trim_space ◌>>=◌
    read_history_entry device_id index = do
      guard (not (index == 0)) index_not_positive
      guard (not (is_blank (trim_space device_id))) device_id_required
      with_session (read_in_session index)
