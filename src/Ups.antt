-- ===== src/Ups.antt =====
-- cmd/hm-apcupsd-collector/main.go: the frames of the network protocol of apcupsd. A connection is the
-- list of the bytes that are still to come, after which it ends.
pub mod Frames
use home_metrics.Base.{
  ℕ, zero, suc, ◌+◌, ◌*◌, ◌/◌, ◌%◌, Bool, true, false, List, [], ◌∷◌, ◌++◌, Option, none, some,
  ◌==◌, if◌then◌else◌, length, take, drop, ltb,
}

abbrev pub Bytes : Type 0
Bytes = List ℕ

-- `writeNISCommand`: what is written, none for a command that is too long.
unfoldable pub write_nis_command : Bytes → Option Bytes
write_nis_command command =
    let n = length command in if ltb 65535 n then none else some (n / 256 % 256 ∷ n % 256 ∷ command)

-- The end of the stream in place of a header: an error if nothing has been read.
abbrev pub ended : Bytes → Option Bytes
ended [] = none
ended (b ∷ bs) = some (b ∷ bs)

-- `readNISResponse`: none for an error; each turn takes a header of two bytes.
unfoldable pub read_loop : ℕ → Bytes → Bytes → Option Bytes
read_loop zero builder bytes = none
read_loop (suc fuel) builder [] = ended builder
read_loop (suc fuel) builder (b ∷ []) = none
read_loop (suc fuel) builder (hi ∷ lo ∷ rest) =
    let n = hi * 256 + lo in
    let more = read_loop fuel (builder ++ take n rest) (drop n rest) in
    if n == 0 then some builder else if ltb (length rest) n then none else more

unfoldable pub read_nis_response : Bytes → Option Bytes
unfolding read_loop
read_nis_response bytes = read_loop (suc (length bytes)) [] bytes
