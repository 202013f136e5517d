-- ===== src/Proto/Messages/Total.antt =====
-- cmd/hm-cisco-iot-orchestrator-collector/protobuf.go: the fuel of the message loops.
use home_metrics.Base.{
  ℕ, zero, suc, ◌≤◌, ◌≡◌, ◌≢◌, refl, ◌⊎◌, inl, inr, List, [], ◌∷◌, arith, length,
}
use home_metrics.Proto.{
  Bytes, ProtoError, Parse, ok, err, consume_key, consume_bytes, consume_string,
}
use home_metrics.Proto.Consume.{consume_key_shorter, consume_bytes_shorter, skip_value_shorter}
use home_metrics.Proto.Messages.{
  failed, out_of_fuel, fields_loop, fields, Subscription, subscription_step, batch_step, remaining,
}

module _ {M : Type 0} (step : ℕ → ℕ → Bytes → M → M × Parse Bytes) where
  -- A step leaves no more than it was given.
  abbrev pub Shrinks : Type 0
  Shrinks =
      (field wire : ℕ) (rest : Bytes) (m : M) (rest' : Bytes)
      → (step field wire rest m).1 ≡ ok rest'
      → length rest' ≤ length rest

pub Parse-cases {ℓ} :
    {A : Type ℓ} (r : Parse A) → ((a : A) × (r ≡ ok a)) ⊎ ((e : ProtoError) × (r ≡ err e))
Parse-cases (ok a) = inl (a, refl)
Parse-cases (err e) = inr (e, refl)

module _ {M : Type 0} (step : ℕ → ℕ → Bytes → M → M × Parse Bytes) (shrinks : Shrinks step) where
  pub fields_loop-fuel :
      (f g : ℕ) (data' : Bytes) (m : M)
      → length data' ≤ f
      → length data' ≤ g
      → fields_loop step f data' m ≡ fields_loop step g data' m
  unfolding fields_loop
  fields_loop-fuel f g [] m p q = refl
  fields_loop-fuel zero g (b ∷ bs) m p q = absurd (omega arith)
  fields_loop-fuel (suc f) zero (b ∷ bs) m p q = absurd (omega arith)
  fields_loop-fuel (suc f) (suc g) (b ∷ bs) m p q = elim (Parse-cases (consume_key (b ∷ bs))) [
    | inr (e, k) ↦ rw (k, fields_loop)
    | inl ((field, wire, rest), k) ↦
        rw (k, fields_loop)
          (elim (Parse-cases (step field wire rest m).1) [
            | inr (e, r) ↦ rw (r, fields_loop)
            | inl (rest', r) ↦
                let le = shrinks field wire rest m rest' r in
                let lt = consume_key_shorter (b ∷ bs) field wire rest k in
                rw (r, fields_loop)
                  (fields_loop-fuel f g rest' (step field wire rest m).0 (omega arith)
                    (omega arith))
          ])
  ]

  pub fields_loop-ne-out_of_fuel :
      (f : ℕ) (data' : Bytes) (m : M)
      → length data' ≤ f
      → (fields_loop step f data' m).1 ≢ out_of_fuel
  unfolding fields_loop
  fields_loop-ne-out_of_fuel f [] m p = λ e. cc
  fields_loop-ne-out_of_fuel zero (b ∷ bs) m p = absurd (omega arith)
  fields_loop-ne-out_of_fuel (suc f) (b ∷ bs) m p = elim (Parse-cases (consume_key (b ∷ bs))) [
    | inr (e, k) ↦ rw (k, fields_loop) (λ x. cc)
    | inl ((field, wire, rest), k) ↦
        rw (k, fields_loop)
          (elim (Parse-cases (step field wire rest m).1) [
            | inr (e, r) ↦ rw (r, fields_loop) (λ x. cc)
            | inl (rest', r) ↦
                let le = shrinks field wire rest m rest' r in
                let lt = consume_key_shorter (b ∷ bs) field wire rest k in
                rw (r, fields_loop)
                  (fields_loop-ne-out_of_fuel f rest' (step field wire rest m).0 (omega arith))
          ])
  ]

-- One round of the loop.
module _ {M : Type 0} (step : ℕ → ℕ → Bytes → M → M × Parse Bytes) where
  pub fields_loop_step :
      (f b : ℕ) (bs : Bytes) (m : M) (field wire : ℕ) (rest rest' : Bytes)
      → consume_key (b ∷ bs) ≡ ok (field, wire, rest)
      → (step field wire rest m).1 ≡ ok rest'
      → fields_loop step (suc f) (b ∷ bs) m ≡ fields_loop step f rest' (step field wire rest m).0
  unfolding fields_loop
  fields_loop_step f b bs m field wire rest rest' k r = rw (k, fields_loop) (rw (r, fields_loop))

  pub fields_loop_stop :
      (f b : ℕ) (bs : Bytes) (m : M) (field wire : ℕ) (rest : Bytes) (x : ProtoError)
      → consume_key (b ∷ bs) ≡ ok (field, wire, rest)
      → (step field wire rest m).1 ≡ err x
      → fields_loop step (suc f) (b ∷ bs) m ≡ ((step field wire rest m).0, failed x)
  unfolding fields_loop
  fields_loop_stop f b bs m field wire rest x k r = rw (k, fields_loop) (rw (r, fields_loop))

remaining-eq-ok :
    {A : Type 0} (r : Parse (A × Bytes)) (rest : Bytes)
    → remaining r ≡ ok rest
    → (a : A) × (r ≡ ok (a, rest))
remaining-eq-ok (ok (a, rest')) rest h = (a, ground arith)
remaining-eq-ok (err e) rest h = cc

remaining_bytes :
    (rest rest' : Bytes) → remaining (consume_bytes rest) ≡ ok rest' → length rest' ≤ length rest
remaining_bytes rest rest' h =
    let (a, e) = remaining-eq-ok (consume_bytes rest) rest' h in
    omega (arith, consume_bytes_shorter rest a rest' e)

pub subscription_step-Shrinks : Shrinks subscription_step
unfolding subscription_step consume_string
subscription_step-Shrinks field wire rest m rest' h =
    ground (arith, remaining_bytes rest rest', skip_value_shorter wire rest rest')

pub batch_step-Shrinks : Shrinks batch_step
unfolding batch_step
batch_step-Shrinks field wire rest m rest' h = elim (Parse-cases (consume_bytes rest)) [
  | inr (e, c) ↦ ground (arith, c, skip_value_shorter wire rest rest')
  | inl ((item, rest''), c) ↦
      ground
        (arith, c, consume_bytes_shorter rest item rest'' c, skip_value_shorter wire rest rest')
]

-- Whatever the bytes are, the loops over a batch and over a subscription end by their own tests:
-- the fuel that they are given does not run out.
pub messages-end :
    (data' : Bytes) (ms : List Subscription) (m : Subscription)
    → ((fields batch_step data' ms).1 ≢ out_of_fuel)
      × ((fields subscription_step data' m).1 ≢ out_of_fuel)
unfolding fields
messages-end data' ms m = (
  fields_loop-ne-out_of_fuel batch_step batch_step-Shrinks (length data') data' ms (omega arith),
  fields_loop-ne-out_of_fuel subscription_step subscription_step-Shrinks (length data') data' m
      (omega arith),
)
