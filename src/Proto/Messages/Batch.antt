-- ===== src/Proto/Messages/Batch.antt =====
-- cmd/hm-cisco-iot-orchestrator-collector/protobuf.go: batches one behind the other.
use home_metrics.Base.{
  ℕ, zero, suc, ◌≤◌, ◌≡◌, ◌≢◌, refl, sym, ap, ◌∙◌, inl, inr, List, [], ◌∷◌, ◌++◌, arith, length,
  length-append,
}
use mathlib.Core.List.{append_assoc, append-nil}
use home_metrics.Proto.{Bytes, ProtoError, Parse, ok, err, ◌>>=◌, consume_key, consume_bytes}
use home_metrics.Proto.Consume.{
  consume_key_shorter, consume_key-append, consume_bytes-append, skip_value-append,
}
use home_metrics.Proto.Messages.{
  Outcome, finished, failed, out_of_fuel, fields_loop, fields, Subscription, batch_step,
  parse_subscription, parse_batch, result,
}
use home_metrics.Proto.Messages.Total.{
  Shrinks, Parse-cases, fields_loop-fuel, fields_loop_step, fields_loop_stop, batch_step-Shrinks,
}

module _ {M : Type 0} (step : ℕ → ℕ → Bytes → M → M × Parse Bytes) where
  -- What a step leaves is followed by whatever stood behind its input.
  abbrev IsLocal : Type 0
  IsLocal =
      (field wire : ℕ) (rest more : Bytes) (m : M) (rest' : Bytes)
      → (step field wire rest m).1 ≡ ok rest'
      → step field wire (rest ++ more) m ≡ ((step field wire rest m).0, ok (rest' ++ more))

  stops_at_key :
      (f b : ℕ) (bs : Bytes) (m m' : M) (x : ProtoError)
      → consume_key (b ∷ bs) ≡ err x
      → fields_loop step (suc f) (b ∷ bs) m ≢ (m', finished)
  stops_at_key f b bs m m' x k = unfold fields_loop in rw (k, fields_loop) (λ e. cc)

  stops_at_value :
      (f b : ℕ) (bs : Bytes) (m m' : M) (field wire : ℕ) (rest : Bytes) (x : ProtoError)
      → consume_key (b ∷ bs) ≡ ok (field, wire, rest)
      → (step field wire rest m).1 ≡ err x
      → fields_loop step (suc f) (b ∷ bs) m ≢ (m', finished)
  stops_at_value f b bs m m' field wire rest x k r =
      unfold fields_loop in rw (k, fields_loop) (rw (r, fields_loop) (λ e. cc))

  module _ (shrinks : Shrinks step) (local : IsLocal) where
    -- A loop that ends on `data'` goes on to what stands behind it.
    fields_loop-append :
        (f g : ℕ) (data' more : Bytes) (m m' : M)
        → length data' ≤ f
        → length (data' ++ more) ≤ g
        → fields_loop step f data' m ≡ (m', finished)
        → fields_loop step g (data' ++ more) m ≡ fields_loop step g more m'
    fields_loop-append f g [] more m m' p q e = unfold fields_loop in cc
    fields_loop-append zero g (b ∷ bs) more m m' p q e = absurd (omega arith)
    fields_loop-append (suc f) zero (b ∷ bs) more m m' p q e = absurd (omega arith)
    fields_loop-append (suc f) (suc g) (b ∷ bs) more m m' p q e =
        elim (Parse-cases (consume_key (b ∷ bs))) [
          | inr (x, k) ↦ absurd (stops_at_key f b bs m m' x k e)
          | inl ((field, wire, rest), k) ↦ elim (Parse-cases (step field wire rest m).1) [
            | inr (x, r) ↦ absurd (stops_at_value f b bs m m' field wire rest x k r e)
            | inl (rest', r) ↦
                let le = shrinks field wire rest m rest' r in
                let lt = consume_key_shorter (b ∷ bs) field wire rest k in
                let here = local field wire rest more m rest' r in
                fields_loop_step step g b (bs ++ more) m field wire (rest ++ more) (rest' ++ more)
                  (consume_key-append (b ∷ bs) more field wire rest k)
                  (ap (λ (t : M × Parse Bytes). t.1) here)
                ∙ (rw here (
                    fields_loop-append f g rest' more (step field wire rest m).0 m' (omega arith)
                      (omega (arith, length-append rest' more, length-append bs more))
                      (sym (fields_loop_step step f b bs m field wire rest rest' k r) ∙ e)))
                ∙ fields_loop-fuel step shrinks g (suc g) more m'
                    (omega (arith, length-append bs more)) (omega (arith, length-append bs more))
          ]
        ]

batch_step-IsLocal : IsLocal batch_step
unfolding batch_step
batch_step-IsLocal field wire rest more m rest' h = elim (Parse-cases (consume_bytes rest)) [
  | inr (e, c) ↦ ground (arith, c, skip_value-append wire rest more rest')
  | inl ((item, rest''), c) ↦ ground (
    arith,
    c,
    consume_bytes-append rest more item rest'' c,
    skip_value-append wire rest more rest',
  )
]

abbrev behind : {A : Type 0} → List Subscription → List Subscription × A → List Subscription × A
behind acc (m, o) = (acc ++ m, o)

batch_step-behind :
    (field wire : ℕ) (rest : Bytes) (acc m : List Subscription)
    → batch_step field wire rest (acc ++ m) ≡ behind acc (batch_step field wire rest m)
unfolding batch_step
batch_step-behind field wire rest acc m = elim (Parse-cases (consume_bytes rest)) [
  | inr (e, c) ↦ ground (arith, c)
  | inl ((item, rest''), c) ↦ elim (Parse-cases (parse_subscription item)) [
    | inr (e, p) ↦ ground (arith, c, p)
    | inl (x, p) ↦ ground (arith, c, p, append_assoc acc m (x ∷ []))
  ]
]

-- The messages that were read before stay in front.
batch_loop-behind :
    (f : ℕ) (data' : Bytes) (acc m : List Subscription)
    → fields_loop batch_step f data' (acc ++ m) ≡ behind acc (fields_loop batch_step f data' m)
unfolding fields_loop
batch_loop-behind f [] acc m = refl
batch_loop-behind zero (b ∷ bs) acc m = refl
batch_loop-behind (suc f) (b ∷ bs) acc m = elim (Parse-cases (consume_key (b ∷ bs))) [
  | inr (x, k) ↦ rw (k, fields_loop)
  | inl ((field, wire, rest), k) ↦
      let step = batch_step field wire rest in
      let here = batch_step-behind field wire rest acc m in
      let value = ap (λ (t : List Subscription × Parse Bytes). t.1) here in
      let message = ap (λ (t : List Subscription × Parse Bytes). t.0) here in
      elim (Parse-cases (step m).1) [
        | inr (x, r) ↦
            fields_loop_stop batch_step f b bs (acc ++ m) field wire rest x k (value ∙ r)
            ∙ ap (λ (t : List Subscription). (t, failed x)) message
            ∙ ap (behind acc) (sym (fields_loop_stop batch_step f b bs m field wire rest x k r))
        | inl (rest', r) ↦
            fields_loop_step batch_step f b bs (acc ++ m) field wire rest rest' k (value ∙ r)
            ∙ ap (fields_loop batch_step f rest') message
            ∙ batch_loop-behind f rest' acc (step m).0
            ∙ ap (behind acc) (sym (fields_loop_step batch_step f b bs m field wire rest rest' k r))
      ]
]

result-eq-ok : {A : Type 0} (p : A × Outcome) (a : A) → result p ≡ ok a → p ≡ (a, finished)
result-eq-ok (m, finished) a h = ground arith
result-eq-ok (m, failed e) a h = cc
result-eq-ok (m, out_of_fuel) a h = cc

result-behind :
    (acc : List Subscription) (p : List Subscription × Outcome)
    → result (behind acc p) ≡ (result p >>= λ ys. ok (acc ++ ys))
result-behind acc (m, finished) = refl
result-behind acc (m, failed e) = refl
result-behind acc (m, out_of_fuel) = refl

-- If a batch parses to `xs`, then with any bytes behind it the whole parses to `xs` followed by
-- what those bytes parse to, and to their error where they do not parse.
pub parse_batch-append :
    (front back : Bytes) (xs : List Subscription)
    → parse_batch front ≡ ok xs
    → parse_batch (front ++ back) ≡ (parse_batch back >>= λ ys. ok (xs ++ ys))
unfolding parse_batch fields
parse_batch-append front back xs h =
    let n = length (front ++ back) in
    let whole : fields_loop batch_step n (front ++ back) [] ≡ fields_loop batch_step n back xs =
      fields_loop-append batch_step batch_step-Shrinks batch_step-IsLocal (length front) n front
        back [] xs (omega arith) (omega arith) (result-eq-ok _ xs h) in
    let fuel : fields_loop batch_step n back xs
        ≡ fields_loop batch_step (length back) back (xs ++ []) =
      fields_loop-fuel batch_step batch_step-Shrinks n (length back) back xs
        (omega (arith, length-append front back)) (omega arith)
      ∙ rw append-nil in
    rw (whole, fuel, batch_loop-behind (length back) back xs [])
      (result-behind xs (fields_loop batch_step (length back) back []))
