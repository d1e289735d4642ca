-- ===== src/Tests/Wire.antt =====
-- Lines of the wire protocol and of a scraped console.
use flip_de_flock.Common.{
  List, [], arith, inl, length, none, refl, some, ◌<◌, ◌==◌, ◌∷◌, ◌≡◌, ◌≢◌, ◌≤◌, ◌⊎◌,
}
use flip_de_flock.Common.Bytes.{Bytes, codes, has_byte, starts_with}
use flip_de_flock.Common.Int.{◌-ℤ◌}
use flip_de_flock.Common.Libc.{atoi, digit_value, read_digits, read_sign, skip_space, to_i8}
use flip_de_flock.Common.Mac.{Mac}
use flip_de_flock.Common.Search.{All, any_of}
use flip_de_flock.EspParser.Detection.{
  apply_fp, apply_sig, cap_by_ssid, cap_probe, conf_from_int, flock_msg, parse_flock, read_trailer,
  read_trailers, score_flock, wire_conf, wire_ftype, wire_ssid,
}
use flip_de_flock.EspParser.Dispatch.{detection_line, remote_id_line}
use flip_de_flock.EspParser.Fields.{
  esp_hexval, esp_split_fields, hex_pair, parse_mac_compact, parse_mac_field,
}
use flip_de_flock.EspParser.Line.{esp_parse_companion_line}
use flip_de_flock.EspParser.Lossless.{CommaFreeInit, join, split_fields_lossless}
use flip_de_flock.EspParser.Message.{remote_id}
use flip_de_flock.EspParser.Payload.{hex_text}
use flip_de_flock.EspParser.Trust.{confirmed_needs_name, evidence_raises}
use flip_de_flock.FlockDb.Fingerprint.{
  flock_ie_fp_is_generic, flock_ie_fp_match, holds, holds_seeded,
}
use flip_de_flock.FlockDb.Ssid.{
  ascii_lower, ci_contains, contains_from, flock_ssid_confidence, hex_to_end,
  is_flock_provisioning_ssid, matches_here, score_ssid, strip_flock, user_needle,
}
use flip_de_flock.FlockDb.Types.{confirmed, probe_fp, rung}
use flip_de_flock.Marauder.{line_conf, marauder_scan_line}
use flip_de_flock.Marauder.Hits.{Grounded, hits-Grounded}

abbrev sender : Mac
sender = record { b0 = 0x70; b1 = 0xc9; b2 = 0x4e; b3 = 1; b4 = 2; b5 = 3 }

abbrev beacon : List Bytes
beacon =
    codes "D"
    ∷ codes "70c94e010203"
    ∷ codes "-61"
    ∷ codes "6"
    ∷ codes "R"
    ∷ codes "3"
    ∷ codes "Flock-a1b2c3"
    ∷ codes "sg=1"
    ∷ []

confirmed_needs_name_example :
    (wire_conf beacon ≡ confirmed)
    × (wire_ftype beacon ≢ b'P')
    × ((wire_ssid beacon ≡ []) ⊎ (flock_ssid_confidence none (some (wire_ssid beacon)) ≡ confirmed))
unfolding parse_flock parse_mac_field parse_mac_compact hex_pair esp_hexval flock_msg score_flock
    apply_sig read_trailers read_trailer starts_with apply_fp flock_ie_fp_match cap_probe
    cap_by_ssid conf_from_int atoi read_sign skip_space read_digits digit_value ◌-ℤ◌ holds_seeded
    flock_ie_fp_is_generic holds any_of flock_ssid_confidence score_ssid user_needle
    is_flock_provisioning_ssid strip_flock hex_to_end ascii_lower ci_contains contains_from
    matches_here
confirmed_needs_name_example =
    confirmed_needs_name none beacon (flock_msg none sender beacon) refl refl

evidence_raises_example : rung probe_fp ≤ rung (flock_msg none sender beacon).conf
unfolding read_trailers read_trailer starts_with
evidence_raises_example = evidence_raises none beacon sender (inl refl)

detection_line_example : esp_parse_companion_line none (join beacon) ≡ parse_flock none beacon
unfolding has_byte
detection_line_example =
    detection_line none (codes "70c94e010203")
      (codes "-61" ∷ codes "6" ∷ codes "R" ∷ codes "3" ∷ codes "Flock-a1b2c3" ∷ codes "sg=1" ∷ [])
      (refl, (refl, (refl, (refl, (refl, (refl, (refl, tt))))))) (omega arith)

remote_id_line_example :
    esp_parse_companion_line none (
      join (
        codes "RID"
        ∷ codes "70c94e010203"
        ∷ codes "-70"
        ∷ hex_text (λ place. place == 0) (0x0d ∷ 0xff ∷ [])
        ∷ []))
    ≡ remote_id sender (to_i8 (atoi (codes "-70"))) (0x0d ∷ 0xff ∷ [])
unfolding has_byte parse_mac_compact hex_pair esp_hexval
remote_id_line_example =
    remote_id_line none (λ place. place == 0) (codes "70c94e010203") (codes "-70") (0xff ∷ [])
      sender 0x0d refl refl refl (omega arith, (omega arith, tt)) (omega arith)

split_fields_lossless_example :
    (join (esp_split_fields (codes "S,1,2,3,4") 3) ≡ codes "S,1,2,3,4")
    × (0 < length (esp_split_fields (codes "S,1,2,3,4") 3))
    × (length (esp_split_fields (codes "S,1,2,3,4") 3) ≤ 3)
    × CommaFreeInit (esp_split_fields (codes "S,1,2,3,4") 3)
split_fields_lossless_example = split_fields_lossless (codes "S,1,2,3,4") 3 (omega arith)

abbrev console : Bytes
console = codes "-60 Ch: 6 70:c9:4e:01:02:03 ESSID: Flock-a1b2c3"

hits-Grounded_example :
    All
      (Grounded none
        (line_conf none console)
        ((marauder_scan_line none (some console)).mac_count == 1))
      (marauder_scan_line none (some console)).hits
hits-Grounded_example = hits-Grounded none console
