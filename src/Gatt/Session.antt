-- ===== src/Gatt/Session.antt =====
-- cmd/hm-cisco-iot-orchestrator-collector/flowercare.go: the connections of a history read.
use home_metrics.Base.{
  ℕ, ◌+◌, ◌-◌, ◌/◌, ◌%◌, Bool, true, false, ◌≡◌, refl, ◌∙◌, List, [], ◌∷◌, ltb, ◌==◌, ◌||◌, not,
  length, get_or, arith,
}
use home_metrics.Base.Float.{Float64}
use home_metrics.Base.Time.{Time}
use home_metrics.Base.Text.{Text, trim_space}
use home_metrics.Store.{is_blank}
use home_metrics.Decoder.{Bytes, hex_encode, le16, le32}
use home_metrics.Decoder.Payload
use home_metrics.Decoder.Payload.{Decoded, decode_history}
use home_metrics.Gatt.{
  ReadError, Answer, ok, err, Gatt, continue, ◌>>=◌, guard, ControlApi, control_read, control_write,
  with_session, host_time, Entry, entry_of, read_payload, read_if, read_in_session,
  read_history_entry, decode_hex_value, flower_care_epoch, flower_care_history_command,
  flower_care_history_data, epoch_too_short, init_too_short, index_not_positive, device_id_required,
}

-- The requests that a session sends, the newest first, as far as they open and close it: whether a
-- connect was answered without an error, and a disconnect whatever its answer.
pub data Request : Type 0 where
  connected refused disconnected other : Request

abbrev answered : {E A : Type 0} → Answer E A → Request
answered (ok a) = connected
answered (err e) = refused

abbrev noted :
    {D E A : Type 0} → Request → List Request → D × Answer E A → (D × List Request) × Answer E A
noted q log (d, a) = ((d, q ∷ log), a)

-- A control API that keeps a log of its requests beside its state.
unfoldable pub logged : {D E : Type 0} → ControlApi D E → ControlApi (D × List Request) E
logged api = record {
  connect = λ s. let r = api.connect s.0 in noted (answered r.1) s.1 r;
  disconnect = λ s. noted disconnected s.1 (api.disconnect s.0);
  read = λ c s. noted other s.1 (api.read c s.0);
  write = λ c v s. noted other s.1 (api.write c v s.0);
  now = λ s. api.now s.0;
}

-- How many sessions a log leaves open: a connect that was answered opens one, and a disconnect is the
-- end of one.
unfoldable pub open_sessions : List Request → ℕ
open_sessions [] = 0
open_sessions (connected ∷ log) = open_sessions log + 1
open_sessions (refused ∷ log) = open_sessions log
open_sessions (disconnected ∷ log) = open_sessions log - 1
open_sessions (other ∷ log) = open_sessions log

-- What the requests of an API do to a number: a connect adds one unless it fails, a disconnect takes one
-- off, and the others leave it.
record CountsConnections {D E : Type 0} (api : ControlApi D E) (connections : D → ℕ) : Type 0 where
  opens :
      (d : D)
      → connections (api.connect d).0
        ≡ (elim (api.connect d).1 [ ok u ↦ connections d + 1 | err e ↦ connections d ])
  closes : (d : D) → connections (api.disconnect d).0 ≡ connections d - 1
  reads : (c : Text) (d : D) → connections (api.read c d).0 ≡ connections d
  writes : (c : Text) (v : Text) (d : D) → connections (api.write c v d).0 ≡ connections d

connect-counts :
    {D E : Type 0} (r : D × Answer E (Unit {0})) (log : List Request)
    → open_sessions (noted (answered r.1) log r).0.1 ≡ (elim (noted (answered r.1) log r).1 [
      | ok u ↦ open_sessions log + 1
      | err e ↦ open_sessions log
    ])
unfolding open_sessions
connect-counts (d, ok u) log = refl
connect-counts (d, err e) log = refl

-- The log of any API counts its open sessions.
logged-CountsConnections :
    {D E : Type 0} (api : ControlApi D E) → CountsConnections (logged api) (λ s. open_sessions s.1)
unfolding logged open_sessions
logged-CountsConnections api = record {
  opens = λ s. connect-counts (api.connect s.0) s.1;
  closes = λ s. refl;
  reads = λ c s. refl;
  writes = λ c v s. refl;
}

module _ {D E : Type 0} (connections : D → ℕ) where
  -- A computation that leaves the number of connections.
  pub record Leaves {A : Type 0} (m : Gatt D E A) : Type 0 where
    pub leaves : (d : D) → connections (m d).0 ≡ connections d

  continue-Leaves :
      {A B : Type 0} (f : A → Gatt D E B) (r : D × Answer E A) (d : D)
      → ((a : A) → Leaves (f a))
      → connections r.0 ≡ connections d
      → connections (continue f r).0 ≡ connections d
  continue-Leaves f (d', ok a) d h e = (h a).leaves d' ∙ e
  continue-Leaves f (d', err x) d h e = e

  bind-Leaves :
      {A B : Type 0} {m : Gatt D E A} {f : A → Gatt D E B}
      → Leaves m
      → ((a : A) → Leaves (f a))
      → Leaves (m >>= f)
  unfolding ◌>>=◌
  bind-Leaves {m} {f} h k = record { leaves = λ d. continue-Leaves f (m d) d k (h.leaves d) }

  guard-Leaves : (b : Bool) (e : ReadError E) → Leaves (guard b e)
  guard-Leaves true e = record { leaves = λ d. refl }
  guard-Leaves false e = record { leaves = λ d. refl }

  module _ (api : ControlApi D E) (counts : CountsConnections api connections) where
    control_read-Leaves : (c : Text) → Leaves (control_read api c)
    unfolding control_read ◌>>=◌
    control_read-Leaves c = record {
      leaves = λ d.
          continue-Leaves (λ value d'. (d', decode_hex_value value)) (api.read c d) d
            (λ value. record { leaves = λ d'. refl }) (counts.reads c d);
    }

    control_write-Leaves : (c : Text) (payload : Bytes) → Leaves (control_write api c payload)
    unfolding control_write
    control_write-Leaves c payload = record { leaves = λ d. counts.writes c (hex_encode payload) d }

    host_time-Leaves : Leaves (host_time api)
    unfolding host_time
    host_time-Leaves = record { leaves = λ d. refl }

    module _ (fl : Float64) where
      entry_of-Leaves : (count : ℕ) (r : Decoded (Entry fl)) → Leaves (entry_of fl count r)
      entry_of-Leaves count (Payload.err e) = record { leaves = λ d. refl }
      entry_of-Leaves count (Payload.ok entry) = record { leaves = λ d. refl }

      read_payload-Leaves :
          (index count epoch : ℕ) (host : Time)
          → Leaves (read_payload api fl index count epoch host)
      unfolding read_payload
      read_payload-Leaves index count epoch host =
          bind-Leaves
            (control_write-Leaves flower_care_history_command
              (0xa1 ∷ index % 256 ∷ index / 256 % 256 ∷ []))
            (λ u.
              bind-Leaves (control_read-Leaves flower_care_history_data)
                (λ payload. entry_of-Leaves count (decode_history fl payload epoch host)))

      read_if-Leaves :
          (b : Bool) (index count epoch : ℕ) (host : Time)
          → Leaves (read_if api fl b index count epoch host)
      read_if-Leaves true index count epoch host = record { leaves = λ d. refl }
      read_if-Leaves false index count epoch host = read_payload-Leaves index count epoch host

      read_in_session-Leaves : (index : ℕ) → Leaves (read_in_session api fl index)
      unfolding read_in_session
      read_in_session-Leaves index = bind-Leaves (control_read-Leaves flower_care_epoch) (λ p.
          bind-Leaves (guard-Leaves (not (ltb (length p) 4)) (epoch_too_short p)) (λ u.
            bind-Leaves host_time-Leaves (λ host.
              bind-Leaves
                (control_write-Leaves flower_care_history_command (0xa0 ∷ 0x00 ∷ 0x00 ∷ []))
                (λ v. bind-Leaves (control_read-Leaves flower_care_history_data) (λ q.
                  bind-Leaves (guard-Leaves (not (ltb (length q) 2)) (init_too_short q)) (λ w.
                    let count = le16 (get_or q 0 0) (get_or q 1 0) in
                    read_if-Leaves ((count == 0) || ltb count index) index count
                      (le32 (get_or p 0 0) (get_or p 1 0) (get_or p 2 0) (get_or p 3 0)) host))))))

      -- A session that was opened is closed, whatever its body comes to.
      closed :
          {A : Type 0} (body : Gatt D E A) (r : D × Answer E (Unit {0})) (d : D)
          → Leaves body
          → api.connect d ≡ r
          → connections (continue (λ u d'. ((api.disconnect (body d').0).0, (body d').1)) r).0
            ≡ connections d
      closed body (d', ok u) d h e =
          let opened = counts.opens d in
          omega (arith, counts.closes (body d').0, h.leaves d', rw e at opened)
      closed body (d', err x) d h e = let opened = counts.opens d in rw e at opened

      with_session-Leaves :
          {A : Type 0} (body : Gatt D E A) → Leaves body → Leaves (with_session api body)
      unfolding with_session ◌>>=◌
      with_session-Leaves body h = record { leaves = λ d. closed body (api.connect d) d h refl }

      read_entry-Leaves :
          (device_id : Text) (index : ℕ) → Leaves (read_history_entry api fl device_id index)
      unfolding read_history_entry
      read_entry-Leaves device_id index =
          bind-Leaves (guard-Leaves (not (index == 0)) index_not_positive) (λ u.
            bind-Leaves (guard-Leaves (not (is_blank (trim_space device_id))) device_id_required)
              (λ v.
                with_session-Leaves (read_in_session api fl index) (read_in_session-Leaves index)))

module _ {D E : Type 0} (api : ControlApi D E) (fl : Float64) where
  -- Reading an entry of the history, through any control API and whichever of its requests fail, leaves
  -- as many sessions open as there were, where a connect that is answered without an error opens one and
  -- a request to disconnect, whatever its answer, ends one.
  pub read_history_entry-sessions :
      (device_id : Text) (index : ℕ) (d : D) (log : List Request)
      → open_sessions (read_history_entry (logged api) fl device_id index (d, log)).0.1
        ≡ open_sessions log
  read_history_entry-sessions device_id index d log =
      (read_entry-Leaves (λ s. open_sessions s.1) (logged api) (logged-CountsConnections api) fl
          device_id index).leaves
        (d, log)
