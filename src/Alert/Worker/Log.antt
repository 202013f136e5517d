-- ===== src/Alert/Worker/Log.antt =====
-- cmd/hm-sensor-alert-worker/main.go: the committed events of a rule beside its stored state.
use Prim.Native.String.{String}
use home_metrics.Base.{
  ℕ, Bool, true, false, Bool-cases, ◌≡◌, refl, sym, inl, inr, Option, none, some, List, [], ◌∷◌,
  ◌==◌, arith, if◌then◌else◌, subst, ==_iff,
}
use home_metrics.Base.Float.{Float64}
use home_metrics.Base.Time.{Time}
use home_metrics.Base.Text.{Text}
use home_metrics.Alert.{EventType, fired, resolved, State, Observation, Event, is_firing, evaluate}
use home_metrics.Alert.Events.{boundary, kind_of, evaluate-event}
use home_metrics.Alert.Worker.{
  DbRule, EventRow, Store, WorkerError, Faults, Tx, ok, failed, ◌>>=◌, call, load_state, save_state,
  insert_event, transaction, evaluate_db_rule, evaluate_all,
}

-- A log, newest event first, in which a firing event follows a resolved one or none, a resolved
-- event follows a firing one, and which ends with a firing event exactly if `b` is true.
abbrev pub Alternates : Bool → List EventType → Type 0
Alternates b [] = b ≡ false
Alternates b (fired ∷ es) = (b ≡ true) × Alternates false es
Alternates b (resolved ∷ es) = (b ≡ false) × Alternates true es

abbrev push : Option EventType → List EventType → List EventType
push none es = es
push (some e) es = e ∷ es

push-Alternates :
    (b c : Bool) (es : List EventType) → Alternates b es → Alternates c (push (boundary b c) es)
push-Alternates false false es h = h
push-Alternates false true es h = (refl, h)
push-Alternates true false es h = (refl, h)
push-Alternates true true es h = h

module _ {F : Type 0} where
  unfoldable pub kinds_of : ℕ → List (EventRow F) → List EventType
  kinds_of id [] = []
  kinds_of id (r ∷ rows) =
      let rest = kinds_of id rows in if r.alert_rule_id == id then r.event_type ∷ rest else rest

  load_state-save_state :
      (i j : ℕ) (s : State F) (rows : List (ℕ × State F))
      → load_state j (save_state i s rows) ≡ (if i == j then s else load_state j rows)
  unfolding load_state save_state
  load_state-save_state i j s [] = refl
  load_state-save_state i j s ((k, t) ∷ rows) = ground (arith, load_state-save_state i j s rows)

  kinds_of-insert_event :
      (r : DbRule F) (e : Option (Event F)) (now : Time) (j : ℕ) (rows : List (EventRow F))
      → kinds_of j (insert_event r e now rows)
        ≡ (if r.id == j then push (kind_of e) (kinds_of j rows) else kinds_of j rows)
  unfolding kinds_of
  kinds_of-insert_event r none now j rows = ground arith
  kinds_of-insert_event r (some e) now j rows = refl

  -- Of every rule, the committed events alternate, and the newest is a firing event exactly if the
  -- stored state is firing.
  abbrev pub IsCoherent : Store F → Type 0
  IsCoherent store =
      (id : ℕ)
      → Alternates (is_firing (load_state id store.states).status) (kinds_of id store.events)

-- What holds of the value of a call that succeeds.
data Post {A : Type 0} (P : A → Type 0) : Tx A → Type 0 where
  returns : {a : A} → P a → Post P (ok a)
  fails : {e : WorkerError} → Post P (failed e)

Post-bind :
    {A B : Type 0} {P : B → Type 0} {m : Tx A} {f : A → Tx B}
    → Post (λ a. Post P (f a)) m
    → Post P (m >>= f)
unfolding ◌>>=◌
Post-bind (returns h) = h
Post-bind fails = fails

Post-call : {A : Type 0} {P : A → Type 0} (b : Bool) (a : A) → P a → Post P (call b a)
Post-call true a h = fails
Post-call false a h = returns h

Post-all : {A : Type 0} {P : A → Type 0} (m : Tx A) → ((a : A) → P a) → Post P m
Post-all (ok a) h = returns (h a)
Post-all (failed e) h = fails

module _ (fl : Float64) (latest : Text → String → Option (Observation fl.F)) where
  open fl use {F}

  -- What a transaction commits, for the observation that it used.
  abbrev pub committed : DbRule F → Time → Store F → Option (Observation F) → Store F
  committed r now store o =
      let (next, event) =
        evaluate fl now r.rule r.device_enabled (load_state r.id store.states) o in
      record {
        states = save_state r.id next store.states;
        events = insert_event r event now store.events;
      }

  transaction-committed :
      (faults : Faults) (r : DbRule F) (now : Time) (store : Store F)
      → Post
          (λ s. (o : Option (Observation F)) × (s ≡ committed r now store o))
          (transaction fl latest faults r now store)
  unfolding transaction
  transaction-committed faults r now store = Post-bind (
      Post-all _ (λ c. Post-bind (
        Post-call _ _ (
          Post-bind (
            Post-call _ _ (
              Post-bind (
                Post-all _ (λ o.
                  Post-bind
                    (Post-call _ _ (Post-bind (Post-call _ _ (Post-call _ _ (o, refl)))))))))))))

  committed-IsCoherent :
      (r : DbRule F) (now : Time) (store : Store F) (o : Option (Observation F))
      → IsCoherent store
      → IsCoherent (committed r now store o)
  committed-IsCoherent r now store o h id =
      let after = evaluate fl now r.rule r.device_enabled (load_state r.id store.states) o in
      rw (load_state-save_state, kinds_of-insert_event)
        (elim (Bool-cases (r.id == id)) [
          | inr ne ↦ rw ne (h id)
          | inl eq ↦ rw eq (
              subst
                (λ j.
                  Alternates (is_firing (after.0).status)
                    (push (kind_of after.1) (kinds_of j store.events)))
                ((==_iff r.id id).0 eq)
                (rw (evaluate-event fl now r.rule r.device_enabled (load_state r.id store.states) o)
                  (push-Alternates _ (is_firing (after.0).status) _ (h r.id))))
        ])

  evaluate_db_rule-IsCoherent :
      (faults : Faults) (r : DbRule F) (now : Time) (store : Store F)
      → IsCoherent store
      → IsCoherent (evaluate_db_rule fl latest faults r now store).0
  unfolding evaluate_db_rule
  evaluate_db_rule-IsCoherent faults r now store h = go (transaction-committed faults r now store)
    where
      go :
          {m : Tx (Store F)}
          → Post (λ s. (o : Option (Observation F)) × (s ≡ committed r now store o)) m
          → IsCoherent
              (elim m as (λ _. Store F × Option WorkerError) [
                | ok s ↦ (s, none)
                | failed e ↦ (store, some e)
              ]).0
      go fails = h
      go (returns (o, e)) = subst IsCoherent (sym e) (committed-IsCoherent r now store o h)

  -- A cycle over any rules, with any pattern of database failures, keeps the log of each rule
  -- alternating between firing and resolved events and in agreement with its stored state.
  pub evaluate_all-IsCoherent :
      (faults : ℕ → Faults) (rules : List (DbRule F)) (now : Time) (store : Store F)
      → IsCoherent store
      → IsCoherent (evaluate_all fl latest faults rules now store).0
  unfolding evaluate_all
  evaluate_all-IsCoherent faults [] now store h = h
  evaluate_all-IsCoherent faults (r ∷ rs) now store h =
      evaluate_all-IsCoherent faults rs now (evaluate_db_rule fl latest (faults r.id) r now store).0
        (evaluate_db_rule-IsCoherent (faults r.id) r now store h)
