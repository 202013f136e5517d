-- ===== src/Ups/Frames.antt =====
-- cmd/hm-apcupsd-collector/main.go: the frames of a response, written and read.
use home_metrics.Base.{
  ℕ, zero, suc, ◌+◌, ◌*◌, ◌/◌, ◌%◌, ◌≤◌, ◌<◌, ◌≡◌, refl, sym, ap, ◌∙◌, subst, List, [], ◌∷◌, ◌++◌,
  Option, none, some, arith, length, length-append, take-append, drop-append, All,
}
use mathlib.Core.List.{append_assoc, append-nil}
use home_metrics.Ups.{Bytes, write_nis_command, read_loop, read_nis_response}

-- The frame of a part of a response, whose length is a number of two bytes.
abbrev pub frame : Bytes → Bytes
frame part = length part / 256 ∷ length part % 256 ∷ part

abbrev pub frames : List Bytes → Bytes
frames [] = []
frames (p ∷ ps) = frame p ++ frames ps

abbrev pub joined : List Bytes → Bytes
joined [] = []
joined (p ∷ ps) = p ++ joined ps

abbrev pub IsPart : Bytes → Type 0
IsPart p = (0 < length p) × (length p < 65536)

abbrev parts : List Bytes → ℕ
parts [] = 0
parts (p ∷ ps) = suc (parts ps)

some_injective : {a b : Bytes} → some a ≡ some b → a ≡ b
some_injective e = ground arith

-- A command is written as one frame.
write_nis_command-frame : (p : Bytes) → length p < 65536 → write_nis_command p ≡ some (frame p)
unfolding write_nis_command
write_nis_command-frame p h =
    let small : length p / 256 % 256 ≡ length p / 256 = omega arith in ground arith

read_loop-frame :
    (fuel n : ℕ) (builder p rest : Bytes)
    → n ≡ length p
    → 0 < n
    → read_loop (suc fuel) builder (n / 256 ∷ n % 256 ∷ (p ++ rest))
      ≡ read_loop fuel (builder ++ p) rest
unfolding read_loop
read_loop-frame fuel n builder p rest e h =
    let whole : n / 256 * 256 + n % 256 ≡ n = omega arith in
    let total = length-append p rest in
    rw whole (rw e (rw (take-append p rest) (rw (drop-append p rest) (ground arith))))

read_loop-frames :
    (ps : List Bytes) (fuel : ℕ) (builder tail : Bytes)
    → All IsPart ps
    → parts ps < fuel
    → read_loop fuel builder (frames ps ++ 0 ∷ 0 ∷ tail) ≡ some (builder ++ joined ps)
read_loop-frames [] zero builder tail h l = ground arith
read_loop-frames [] (suc fuel) builder tail h l =
    unfold read_loop in ap some (sym (append-nil builder))
read_loop-frames (p ∷ ps) zero builder tail h l = ground arith
read_loop-frames (p ∷ ps) (suc fuel) builder tail h l =
    rw (append_assoc p (frames ps) (0 ∷ 0 ∷ tail)) (
      read_loop-frame fuel (length p) builder p (frames ps ++ 0 ∷ 0 ∷ tail) refl h.0.0
      ∙ read_loop-frames ps fuel (builder ++ p) tail h.1 (omega arith)
      ∙ ap some (append_assoc builder p (joined ps)))

parts-length : (ps : List Bytes) (rest : Bytes) → parts ps ≤ length (frames ps ++ rest)
parts-length [] rest = omega arith
parts-length (p ∷ ps) rest =
    let e = parts-length ps rest in
    rw (append_assoc p (frames ps) rest) (rw (length-append p (frames ps ++ rest)) (omega arith))

-- Parts written one after the other.
abbrev followed : Option Bytes → Option Bytes → Option Bytes
followed (some a) (some b) = some (a ++ b)
followed _ _ = none

unfoldable pub sent : List Bytes → Option Bytes
unfolding write_nis_command
sent [] = some []
sent (p ∷ ps) = followed (write_nis_command p) (sent ps)

sent-frames : (ps : List Bytes) → All IsPart ps → sent ps ≡ some (frames ps)
unfolding sent
sent-frames [] h = refl
sent-frames (p ∷ ps) h = rw (write_nis_command-frame p h.0.1) (rw (sent-frames ps h.1) refl)

-- Any parts of 1 to 65535 bytes, written one after the other as commands are and followed by an
-- empty frame, are read as one response, the parts joined, whatever follows it on the connection.
pub read_nis_response-sent :
    (ps : List Bytes) (bytes tail : Bytes)
    → All IsPart ps
    → sent ps ≡ some bytes
    → read_nis_response (bytes ++ 0 ∷ 0 ∷ tail) ≡ some (joined ps)
unfolding read_nis_response
read_nis_response-sent ps bytes tail h s =
    let same : some (frames ps) ≡ some bytes = sym (sent-frames ps h) ∙ s in
    let e = parts-length ps (0 ∷ 0 ∷ tail) in
    subst (λ b. read_nis_response (b ++ 0 ∷ 0 ∷ tail) ≡ some (joined ps)) (some_injective same)
      (read_loop-frames ps (suc (length (frames ps ++ 0 ∷ 0 ∷ tail))) [] tail h (omega arith))
