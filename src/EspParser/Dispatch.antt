-- ===== src/EspParser/Dispatch.antt =====
-- Whole lines, from their fields.
use flip_de_flock.Common.{
  Bool, List, [], ap, append-nil, arith, false, length, refl, some, sym, true, ℕ, ◌%◌, ◌+◌, ◌/◌,
  ◌<◌, ◌==◌, ◌∙◌, ◌∷◌, ◌≡◌, ◌≤◌,
}
use flip_de_flock.Common.Bytes.{Bytes, codes, has_byte, starts_with}
use flip_de_flock.Common.Libc.{atoi, to_i8}
use flip_de_flock.Common.Mac.{Mac}
use flip_de_flock.Common.Search.{All}
use flip_de_flock.EspParser.Detection.{parse_flock}
use flip_de_flock.EspParser.Fields.{esp_hexval, esp_split_fields, hex_bytes, parse_mac_compact}
use flip_de_flock.EspParser.Line.{esp_parse_companion_line, parse_rid, remote_id_of}
use flip_de_flock.EspParser.Lossless.{CommaFree, join, split_fields-join}
use flip_de_flock.EspParser.Message.{remote_id}
use flip_de_flock.EspParser.Payload.{IsByte, hex_bytes_reads_back, hex_spelled, hex_text}
use flip_de_flock.FlockDb.Types.{Extras}

-- The line of a D record is parsed from exactly its fields, if none of them holds a comma and
-- there are at most 15 behind the D: no earlier prefix takes the line away, and no trailer is
-- glued to another.
pub detection_line :
    (ex : Extras) (f : Bytes) (fs : List Bytes)
    → CommaFree (f ∷ fs)
    → length fs ≤ 14
    → esp_parse_companion_line ex (join (codes "D" ∷ f ∷ fs)) ≡ parse_flock ex (codes "D" ∷ f ∷ fs)
unfolding esp_parse_companion_line starts_with has_byte esp_hexval
detection_line ex f fs p l =
    ap (parse_flock ex)
      (split_fields-join (codes "D" ∷ f ∷ fs) 16 (refl, p) (omega arith) (omega arith))

hex_no_comma : (u : Bool) (n : ℕ) → (hex_spelled u n == b',') ≡ false
hex_no_comma true n = ground arith
hex_no_comma false n = ground arith

has_byte-hex_text : (upper : ℕ → Bool) (bs : Bytes) → has_byte (hex_text upper bs) b',' ≡ false
unfolding has_byte
has_byte-hex_text upper [] = refl
has_byte-hex_text upper (b ∷ bs) = ground (
  arith,
  has_byte-hex_text (λ place. upper (place + 2)) bs,
  hex_no_comma (upper 0) (b / 16),
  hex_no_comma (upper 1) (b % 16),
)

parse_rid-fields :
    (line addr rssi hex : Bytes) (mac : Mac)
    → esp_split_fields line 4 ≡ codes "RID" ∷ addr ∷ rssi ∷ hex ∷ []
    → parse_mac_compact addr ≡ some mac
    → parse_rid line ≡ remote_id_of mac (to_i8 (atoi rssi)) (hex_bytes 64 hex)
unfolding parse_rid
parse_rid-fields line addr rssi hex mac e m = ground (arith, e, m)

-- A Remote ID line with a readable address and a payload of 1 to 64 bytes in hex digits, each of
-- them in either case, delivers that address, the signal and exactly those bytes.
pub remote_id_line :
    (ex : Extras) (upper : ℕ → Bool) (addr rssi payload : Bytes) (mac : Mac) (b : ℕ)
    → has_byte addr b',' ≡ false
    → has_byte rssi b',' ≡ false
    → parse_mac_compact addr ≡ some mac
    → All IsByte (b ∷ payload)
    → length payload < 64
    → esp_parse_companion_line ex
        (join (codes "RID" ∷ addr ∷ rssi ∷ hex_text upper (b ∷ payload) ∷ []))
      ≡ remote_id mac (to_i8 (atoi rssi)) (b ∷ payload)
unfolding esp_parse_companion_line starts_with has_byte esp_hexval
remote_id_line ex upper addr rssi payload mac b p q m bytes l =
    let text = hex_text upper (b ∷ payload) in
    let fs = codes "RID" ∷ addr ∷ rssi ∷ text ∷ [] in
    let split =
      split_fields-join fs 4 (refl, (p, (q, (has_byte-hex_text upper (b ∷ payload), tt))))
        (omega arith) (omega arith) in
    let read = hex_bytes_reads_back upper 64 (b ∷ payload) [] bytes (omega arith) refl in
    parse_rid-fields (join fs) addr rssi text mac split m
    ∙ ap (remote_id_of mac (to_i8 (atoi rssi))) (ap (hex_bytes 64) (sym (append-nil text)) ∙ read)
