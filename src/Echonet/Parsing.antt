-- ===== src/Echonet/Parsing.antt =====
-- cmd/hm-echonet-collector/main.go: the frames that `parseFrame` reads.
use mathlib.Core.List.{append_assoc, append-nil}
use native.Mathlib.Nat.{div-add-mod}
use home_metrics.Echonet.Esv
use home_metrics.Base.{
  ℕ, suc, ◌/◌, ◌%◌, ◌<◌, ◌^◌, ◌≡◌, refl, ap, sym, List, [], ◌∷◌, ◌++◌, All, arith, length,
  length-append, take-append, drop-append,
}
use home_metrics.Echonet.{
  Bytes, Eoj, PropertyValue, Frame, ok, controller, append_epcs, build_get_frame, parse_properties,
  parse_frame,
}

-- Independent of the code: the bytes of a property and of a frame, as ECHONET Lite lays them out.
unfoldable pub encode_properties : List PropertyValue → Bytes
encode_properties [] = []
encode_properties (p ∷ ps) = p.epc ∷ length p.edt ∷ (p.edt ++ encode_properties ps)

unfoldable pub encode_frame : Frame → Bytes
encode_frame f =
    0x10
    ∷ 0x81
    ∷ f.tid / 256
    ∷ f.tid % 256
    ∷ f.seoj.byte0
    ∷ f.seoj.byte1
    ∷ f.seoj.byte2
    ∷ f.deoj.byte0
    ∷ f.deoj.byte1
    ∷ f.deoj.byte2
    ∷ f.esv
    ∷ length f.properties
    ∷ encode_properties f.properties

-- Each property carries the frame's source object.
unfoldable pub IsFrom : Eoj → List PropertyValue → Type 0
IsFrom source props = All (λ p. p.seoj ≡ source) props

parse_properties-encode :
    (source : Eoj) (ps : List PropertyValue) (rest : Bytes)
    → All (λ p. p.seoj ≡ source) ps
    → parse_properties (length ps) source (encode_properties ps ++ rest) ≡ ok ps
unfolding parse_properties encode_properties
parse_properties-encode source [] rest h = refl
parse_properties-encode source (p ∷ ps) rest h =
    let body = encode_properties ps ++ rest in
    rw
      (
        append_assoc p.edt (encode_properties ps) rest,
        take-append p.edt body,
        drop-append p.edt body,
        parse_properties-encode source ps rest h.1,
      )
      (ground (arith, length-append p.edt body, h.0))

-- Parsing the bytes of a frame gives the frame, whatever bytes come after it.
pub parse_frame-encode :
    (f : Frame) (rest : Bytes)
    → IsFrom f.seoj f.properties
    → parse_frame (encode_frame f ++ rest) ≡ ok f
unfolding parse_frame encode_frame IsFrom
parse_frame-encode f rest h =
    rw (parse_properties-encode f.seoj f.properties rest h)
      (ap (λ t. ok (record f { tid = t })) (omega (arith, div-add-mod f.tid 256)))

unfoldable pub requests : Eoj → Bytes → List PropertyValue
requests source [] = []
requests source (epc ∷ epcs) = record { seoj = source; epc = epc; edt = [] } ∷ requests source epcs

append_epcs-requests :
    (epcs : Bytes)
    → (append_epcs epcs ≡ encode_properties (requests controller epcs))
      × (length epcs ≡ length (requests controller epcs))
      × IsFrom controller (requests controller epcs)
unfolding append_epcs encode_properties requests IsFrom
append_epcs-requests [] = (refl, refl, tt)
append_epcs-requests (epc ∷ epcs) =
    let (bytes, count, from) = append_epcs-requests epcs in
    (ap (λ t. epc ∷ 0x00 ∷ t) bytes, ap suc count, (refl, from))

-- For a transaction number of 16 bits and at most 255 property codes, `parseFrame` reads back from
-- the frame that `buildGetFrame` writes the transaction, the two objects, the Get service and, for
-- each code in order, one property without data.
pub parse_frame-build_get_frame :
    (tid : ℕ) (deoj : Eoj) (epcs : Bytes)
    → tid < 2 ^ 16
    → length epcs < 256
    → parse_frame (build_get_frame tid deoj epcs)
      ≡ ok record {
        tid = tid;
        seoj = controller;
        deoj = deoj;
        esv = Esv.get;
        properties = requests controller epcs;
      }
unfolding build_get_frame encode_frame
parse_frame-build_get_frame tid deoj epcs small few =
    let (bytes, count, from) = append_epcs-requests epcs in
    let count' : length epcs % 256 ≡ length (requests controller epcs) = omega (arith, count) in
    let high : tid / 256 % 256 ≡ tid / 256 = omega arith in
    rw (bytes, count', high, sym (append-nil (encode_properties (requests controller epcs))))
      (parse_frame-encode
        record {
          tid = tid;
          seoj = controller;
          deoj = deoj;
          esv = Esv.get;
          properties = requests controller epcs;
        }
        [] from)
