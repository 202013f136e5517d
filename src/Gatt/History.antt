-- ===== src/Gatt/History.antt =====
-- cmd/hm-cisco-iot-orchestrator-collector/flowercare.go: `readGATTFlowerCareHistory`, the loop over the
-- entries of the history. The registry's fields of a reading are left out.
use home_metrics.Base.{
  ℕ, zero, suc, ◌+◌, ◌≤◌, Bool, true, false, Bool-cases, ◌≡◌, refl, ◌⊎◌, inl, inr, List, [], ◌∷◌,
  ◌++◌, Option, none, some, ltb, ◌==◌, ◌&&◌, ◌||◌, ◌/◌, ◌%◌, not, get_or, if◌then◌else◌, length,
  length-append, arith,
}
use home_metrics.Base.Float.{Float64}
use home_metrics.Base.Text.{Text, trim_space}
use home_metrics.Base.Time.{Time}
use home_metrics.Store.{is_blank}
use home_metrics.Decoder.{le16, le32}
use home_metrics.Decoder.Payload
use home_metrics.Decoder.Payload.{Decoded, decode_history}
use home_metrics.Gatt.{
  ReadError, Answer, ok, err, Gatt, ◌>>=◌, continue, guard, Entry, ControlApi, read_history_entry,
  control_read, control_write, with_session, host_time, entry_of, read_payload, read_if,
  read_in_session, flower_care_epoch, flower_care_history_command, flower_care_history_data,
  epoch_too_short, init_too_short, index_not_positive, device_id_required,
}

pub record HistoryReadResult (F E : Type 0) : Type 0 where
  pub readings : List F
  pub count : ℕ
  pub stop_reason : Option (ReadError E)

-- The result, and the error that is returned with it.
abbrev pub History : Type 0 → Type 0 → Type 0
History E A = HistoryReadResult A E × Option (ReadError E)

module _ {E A : Type 0} where
  -- What an error of entry `index` ends the loop with.
  abbrev stopped : ℕ → HistoryReadResult A E → ReadError E → History E A
  stopped index r e = (record r { stop_reason = some e }, if index == 1 then some e else none)

  abbrev counted : ℕ → HistoryReadResult A E → HistoryReadResult A E
  counted n r = record r { count = if r.count == 0 then n else r.count }

  -- An entry that is read is within the count that comes with it.
  abbrev pub IsCounted : ℕ → Answer E (ℕ × Option A) → Type 0
  IsCounted index (ok (n, some a)) = index ≤ n
  IsCounted index (ok (n, none)) = Unit {0}
  IsCounted index (err e) = Unit {0}

  -- What holds at entry `index`: all entries before it have been read, and were counted.
  abbrev IsSofar : ℕ → HistoryReadResult A E → Type 0
  IsSofar index r = (length r.readings + 1 ≡ index) × (length r.readings ≤ r.count)

  -- What the loop comes to.
  abbrev pub IsBounded : ℕ → History E A → Type 0
  IsBounded limit h =
      (length h.0.readings ≤ limit)
      × (length h.0.readings ≤ h.0.count)
      × ((h.1 ≡ none) ⊎ (length h.0.readings ≡ 0))

module _ {D E A : Type 0} where
  -- The rest of a turn, once entry `index` has been answered.
  abbrev proceed :
      ℕ
      → HistoryReadResult A E
      → D × Answer E (ℕ × Option A)
      → (HistoryReadResult A E → D → D × History E A)
      → D × History E A
  proceed index r (d, err e) rest = (d, stopped index r e)
  proceed index r (d, ok (n, none)) rest = (d, (counted n r, none))
  proceed index r (d, ok (n, some a)) rest =
      rest (record (counted n r) { readings = r.readings ++ a ∷ [] }) d

  module _ (read : ℕ → Gatt D E (ℕ × Option A)) where
    -- The loop with `left` turns to go, at entry `index`.
    unfoldable pub history_loop : ℕ → ℕ → HistoryReadResult A E → D → D × History E A
    history_loop zero index r d = (d, (r, none))
    history_loop (suc left) index r d =
        let rest = proceed index r (read index d) (λ s d'. history_loop left (index + 1) s d') in
        if ltb 0 r.count && ltb r.count index then (d, (r, none)) else rest

    unfoldable pub read_history : ℕ → D → D × History E A
    unfolding history_loop
    read_history max_entries d =
        history_loop max_entries 1 (record { readings = []; count = 0; stop_reason = none }) d

  proceed-IsBounded :
      (left index : ℕ) (r : HistoryReadResult A E) (answer : D × Answer E (ℕ × Option A))
      (rest : HistoryReadResult A E → D → D × History E A)
      → IsSofar index r
      → (ltb 0 r.count && ltb r.count index) ≡ false
      → IsCounted index answer.1
      → ((s : HistoryReadResult A E) (d : D)
          → IsSofar (index + 1) s
          → IsBounded (length s.readings + left) (rest s d).1)
      → IsBounded (length r.readings + suc left) (proceed index r answer rest).1
  proceed-IsBounded left index r (d, err e) rest h t c k = elim (Bool-cases (index == 1)) [
    | inl x ↦ rw x (omega arith, h.1, inr (ground arith))
    | inr x ↦ rw x (omega arith, h.1, inl refl)
  ]
  proceed-IsBounded left index r (d, ok (n, none)) rest h t c k =
      (omega arith, ground arith, inl refl)
  proceed-IsBounded left index r (d, ok (n, some a)) rest h t c k =
      let s = record (counted n r) { readings = r.readings ++ a ∷ [] } in
      let more : length s.readings ≡ length r.readings + 1 = length-append r.readings (a ∷ []) in
      let so_far : IsSofar (index + 1) s = (omega arith, ground arith) in
      let done = k s d so_far in (omega arith, done.1, done.2)

  module _ (read : ℕ → Gatt D E (ℕ × Option A))
      (counts : (index : ℕ) (d : D) → IsCounted index (read index d).1) where
    history_loop-IsBounded :
        (left index : ℕ) (r : HistoryReadResult A E) (d : D)
        → IsSofar index r
        → IsBounded (length r.readings + left) (history_loop read left index r d).1
    unfolding history_loop
    history_loop-IsBounded zero index r d h = (omega arith, h.1, inl refl)
    history_loop-IsBounded (suc left) index r d h =
        elim (Bool-cases (ltb 0 r.count && ltb r.count index)) [
          | inl t ↦ rw t (omega arith, h.1, inl refl)
          | inr t ↦ rw t (
              proceed-IsBounded left index r (read index d)
                (λ s d'. history_loop read left (index + 1) s d') h t (counts index d)
                (λ s d' k. history_loop-IsBounded left (index + 1) s d' k))
        ]

    read_history-IsBounded :
        (max_entries : ℕ) (d : D) → IsBounded max_entries (read_history read max_entries d).1
    unfolding read_history
    read_history-IsBounded max_entries d =
        let b =
          history_loop-IsBounded max_entries 1
            (record { readings = []; count = 0; stop_reason = none }) d
            (omega arith, omega arith) in
        (omega (arith, b.0), b.1, b.2)

-- A computation whose entry, if it has one, is within its count.
record Counts {D E A : Type 0} (index : ℕ) (m : Gatt D E (ℕ × Option A)) : Type 0 where
  counts : (d : D) → IsCounted index (m d).1

module _ {D E : Type 0} where
  continue-counts :
      {A B : Type 0} (index : ℕ) (f : A → Gatt D E (ℕ × Option B)) (r : D × Answer E A)
      → ((a : A) → Counts index (f a))
      → IsCounted index (continue f r).1
  continue-counts index f (d, ok a) h = (h a).counts d
  continue-counts index f (d, err e) h = tt

  bind-Counts :
      {A B : Type 0} {index : ℕ} (m : Gatt D E A) {f : A → Gatt D E (ℕ × Option B)}
      → ((a : A) → Counts index (f a))
      → Counts index (m >>= f)
  unfolding ◌>>=◌
  bind-Counts {index} m {f} h = record { counts = λ d. continue-counts index f (m d) h }

  module _ (api : ControlApi D E) (fl : Float64) where
    entry_of-Counts :
        (index count : ℕ) (r : Decoded (Entry fl))
        → index ≤ count
        → Counts {D = D} {E = E} index (entry_of fl count r)
    entry_of-Counts index count (Payload.err e) h = record { counts = λ d. tt }
    entry_of-Counts index count (Payload.ok entry) h = record { counts = λ d. h }

    read_if-Counts :
        (b : Bool) (index count epoch : ℕ) (host : Time)
        → ((count == 0) || ltb count index) ≡ b
        → Counts index (read_if api fl b index count epoch host)
    read_if-Counts true index count epoch host h = record { counts = λ d. tt }
    read_if-Counts false index count epoch host h =
        unfold read_payload in
        bind-Counts
          (control_write api flower_care_history_command
            (0xa1 ∷ index % 256 ∷ index / 256 % 256 ∷ []))
          (λ u. bind-Counts (control_read api flower_care_history_data) (λ payload.
            entry_of-Counts index count (decode_history fl payload epoch host) (ground arith)))

    read_in_session-Counts : (index : ℕ) → Counts index (read_in_session api fl index)
    unfolding read_in_session
    read_in_session-Counts index = bind-Counts (control_read api flower_care_epoch) (λ p.
        bind-Counts (guard (not (ltb (length p) 4)) (epoch_too_short p)) (λ u.
          bind-Counts (host_time api) (λ host.
            bind-Counts (control_write api flower_care_history_command (0xa0 ∷ 0x00 ∷ 0x00 ∷ []))
              (λ v. bind-Counts (control_read api flower_care_history_data) (λ q.
                bind-Counts (guard (not (ltb (length q) 2)) (init_too_short q)) (λ w.
                  let count = le16 (get_or q 0 0) (get_or q 1 0) in
                  read_if-Counts ((count == 0) || ltb count index) index count
                    (le32 (get_or p 0 0) (get_or p 1 0) (get_or p 2 0) (get_or p 3 0)) host
                    refl))))))

    session-Counts :
        {A : Type 0} (index : ℕ) (body : Gatt D E (ℕ × Option A))
        → Counts index body
        → Counts index (with_session api body)
    unfolding with_session
    session-Counts index body h =
        bind-Counts api.connect {f = λ u d. ((api.disconnect (body d).0).0, (body d).1)}
          (λ u. record { counts = λ d. h.counts d })

    read_history_entry-Counts :
        (device_id : Text) (index : ℕ) → Counts index (read_history_entry api fl device_id index)
    unfolding read_history_entry
    read_history_entry-Counts device_id index =
        bind-Counts (guard (not (index == 0)) index_not_positive) (λ u.
          bind-Counts (guard (not (is_blank (trim_space device_id))) device_id_required) (λ v.
            session-Counts index (read_in_session api fl index) (read_in_session-Counts index)))

    -- `readGATTFlowerCareHistory` of a device with a GATT configuration.
    unfoldable pub read_flower_care_history : Text → ℕ → D → D × History E (Entry fl)
    unfolding read_history read_history_entry
    read_flower_care_history device_id max_entries d =
        read_history (read_history_entry api fl device_id) max_entries d

    -- A history read, whatever the device and the control API answer, gives no more readings than it
    -- was asked for and no more than the count that it reports, and returns an error only without any
    -- reading.
    pub read_flower_care_history-IsBounded :
        (device_id : Text) (max_entries : ℕ) (d : D)
        → IsBounded max_entries (read_flower_care_history device_id max_entries d).1
    unfolding read_flower_care_history
    read_flower_care_history-IsBounded device_id max_entries d =
        read_history-IsBounded (read_history_entry api fl device_id)
          (λ index d'. (read_history_entry-Counts device_id index).counts d') max_entries d
