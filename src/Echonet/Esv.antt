-- ===== src/Echonet/Esv.antt =====
-- cmd/hm-echonet-collector/main.go: the ECHONET Lite service codes (`esvGet` and its kin).
use Prim.Native.Nat.{ℕ}

abbrev pub get : ℕ
get = 0x62

abbrev pub get_res : ℕ
get_res = 0x72

abbrev pub get_sna : ℕ
get_sna = 0x52

abbrev pub inf : ℕ
inf = 0x73
