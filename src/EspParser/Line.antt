-- ===== src/EspParser/Line.antt =====
-- `esp_parse_companion_line`: one function for each branch, and the chain of prefixes.
use flip_de_flock.Common.{
  Bool, Option, [], drop, if◌then◌else◌, leb, length, ltb, none, not, some, take, true, ℕ, ◌&&◌,
  ◌*◌, ◌+◌, ◌==◌, ◌^◌, ◌||◌, ◌∷◌,
}
use flip_de_flock.Common.Bytes.{Bytes, bytes_eq, char_at, codes, has_byte, is_empty, starts_with}
use flip_de_flock.Common.Int.{negsuc, pos, ℤ}
use flip_de_flock.Common.Libc.{atoi, strtoul, strtoul_value, to_i16, to_i8, to_u16, to_u8}
use flip_de_flock.Common.Mac.{Mac}
use flip_de_flock.EspParser.Advert.{parse_ble}
use flip_de_flock.EspParser.Detection.{parse_flock}
use flip_de_flock.EspParser.Fields.{
  esp_split_fields, field, hex_bytes, parse_mac_compact, parse_mac_field,
}
use flip_de_flock.EspParser.Message.{
  EspMsg, action, attack, band, banner, ble_begin, ble_end, chip, deauth_target, gps_cfg, gps_nmea,
  ignored, locate, remote_id, sig_revision, sig_test, status, survey, wifi_ap, wifi_begin, wifi_end,
}
use flip_de_flock.FlockDb.Types.{Extras}

abbrev flag : Bytes → Bool
flag s = elim (atoi s) [ pos n ↦ not (n == 0) | negsuc n ↦ true ]

-- The build version has room for 11 bytes.
unfoldable pub parse_banner : Bytes → EspMsg
parse_banner line =
    let f = esp_split_fields line 3 in
    banner (if leb 2 (length f) then to_u8 (atoi (field f 1)) else 0) (take 11 (field f 2))

unfoldable pub parse_sig_revision : Bytes → EspMsg
parse_sig_revision line =
    let revision = drop 7 line in
    if is_empty revision || (leb 16 (length revision) || has_byte revision b',')
    then ignored
    else sig_revision revision

-- What stands before and after the last comma.
unfoldable pub cut_last_comma : Bytes → Option (Bytes × Bytes)
cut_last_comma [] = none
cut_last_comma (c ∷ s) = elim (cut_last_comma s) [
  | some (before, after) ↦ some (c ∷ before, after)
  | none ↦ if c == b',' then some ([], s) else none
]

unfoldable pub sig_test_of : Bytes → Bytes → Bytes → EspMsg
sig_test_of signature hash pass =
    if is_empty signature || not (bytes_eq pass (codes "0") || bytes_eq pass (codes "1"))
    then ignored
    else if is_empty hash || (ltb 8 (length hash) || not (is_empty (strtoul 16 hash).1))
    then ignored
    else sig_test signature (strtoul_value 16 hash) (bytes_eq pass (codes "1"))

unfoldable pub parse_sig_test : Bytes → EspMsg
parse_sig_test line = elim (cut_last_comma (drop 8 line)) [
  | none ↦ ignored
  | some (front, pass) ↦ elim (cut_last_comma front) [
    | none ↦ ignored
    | some (signature, hash) ↦ sig_test_of signature hash pass
  ]
]

unfoldable pub parse_deauth : Bytes → EspMsg
parse_deauth line =
    let f = esp_split_fields line 3 in
    if leb 3 (length f)
    then elim (parse_mac_field (field f 1)) [
      | none ↦ ignored
      | some bssid ↦ deauth_target bssid (to_u8 (atoi (field f 2)))
    ]
    else ignored

unfoldable pub parse_attack : Bytes → EspMsg
parse_attack line =
    let f = esp_split_fields line 3 in
    if leb 2 (length f)
    then attack (field f 1) (if leb 3 (length f) then strtoul_value 10 (field f 2) else 0)
    else ignored

unfoldable pub parse_locate : Bytes → EspMsg
parse_locate line = locate (to_i8 (atoi (drop 4 line)))

unfoldable pub parse_action : Bytes → EspMsg
parse_action line =
    let f = esp_split_fields line 5 in
    if ltb (length f) 3 || (is_empty (field f 1) || is_empty (field f 2))
    then ignored
    else action (field f 1) (field f 2) (
        if leb 4 (length f) && not (is_empty (field f 3))
        then some (to_i8 (atoi (field f 3)))
        else none)

unfoldable pub parse_chip : Bytes → EspMsg
parse_chip line =
    let f = esp_split_fields line 6 in
    if ltb (length f) 6
    then ignored
    else chip (field f 1) (to_u8 (atoi (field f 2)))
        (strtoul_value 16 (field f 3) * 2 ^ 32 + strtoul_value 16 (field f 4)) (flag (field f 5))

unfoldable pub parse_band : Bytes → EspMsg
parse_band line =
    let f = esp_split_fields line 3 in
    let channels = to_u16 (atoi (field f 2)) in
    if ltb (length f) 3
    then ignored
    else if bytes_eq (field f 1) (codes "5g")
    then band 1 channels
    else if bytes_eq (field f 1) (codes "all")
    then band 2 channels
    else if bytes_eq (field f 1) (codes "2g")
    then band 0 channels
    else ignored

unfoldable pub parse_gps_cfg : Bytes → EspMsg
parse_gps_cfg line =
    let f = esp_split_fields line 4 in
    if ltb (length f) 4
    then ignored
    else gps_cfg (flag (field f 1)) (to_i16 (atoi (field f 2))) (strtoul_value 10 (field f 3))

unfoldable pub parse_gps : Bytes → EspMsg
parse_gps line = if char_at line 2 == b'$' then gps_nmea (drop 2 line) else ignored

unfoldable pub parse_survey : Bytes → EspMsg
parse_survey line =
    let f = esp_split_fields line 8 in
    if ltb (length f) 6 then ignored else elim (parse_mac_compact (field f 1)) [
      | none ↦ ignored
      | some mac ↦ survey (record {
        mac = mac;
        fp = strtoul_value 16 (field f 4);
        fp2 = if leb 7 (length f) then strtoul_value 16 (field f 6) else 0;
        rssi = to_i8 (atoi (field f 2));
        channel = to_u8 (atoi (field f 3));
        count = to_u16 (atoi (field f 5));
        sig = if leb 8 (length f) then field f 7 else [];
      })
    ]

abbrev pub payload_max : ℕ
payload_max = 64

abbrev pub remote_id_of : Mac → ℤ → Bytes → EspMsg
remote_id_of addr rssi [] = ignored
remote_id_of addr rssi (b ∷ bs) = remote_id addr rssi (b ∷ bs)

unfoldable pub parse_rid : Bytes → EspMsg
parse_rid line =
    let f = esp_split_fields line 4 in
    if ltb (length f) 4 then ignored else elim (parse_mac_compact (field f 1)) [
      | none ↦ ignored
      | some addr ↦ remote_id_of addr (to_i8 (atoi (field f 2))) (hex_bytes payload_max (field f 3))
    ]

unfoldable pub parse_wifi : Bytes → EspMsg
parse_wifi line =
    let f = esp_split_fields line 9 in
    if ltb (length f) 8 then ignored else elim (parse_mac_field (field f 1)) [
      | none ↦ ignored
      | some bssid ↦ wifi_ap (record {
        bssid = bssid;
        ssid = if leb 9 (length f) then field f 8 else [];
        rssi = to_i8 (atoi (field f 2));
        channel = to_u8 (atoi (field f 3));
        auth = to_u8 (atoi (field f 4));
        pairwise = to_u8 (atoi (field f 5));
        wps = flag (field f 7);
      })
    ]

unfoldable pub parse_status : Bytes → EspMsg
parse_status line =
    let f = esp_split_fields line 5 in
    if leb 4 (length f)
    then status (record {
      frames = strtoul_value 10 (field f 1);
      hits = strtoul_value 10 (field f 2);
      channel = to_u8 (atoi (field f 3));
      deauths = if leb 5 (length f) then some (strtoul_value 10 (field f 4)) else none;
    })
    else ignored

unfoldable pub esp_parse_companion_line : Extras → Bytes → EspMsg
esp_parse_companion_line ex line =
    if starts_with line (codes "FLOCKCO")
    then parse_banner line
    else if starts_with line (codes "SIGREV,")
    then parse_sig_revision line
    else if starts_with line (codes "SIGTEST,")
    then parse_sig_test line
    else if starts_with line (codes "WBEGIN")
    then wifi_begin
    else if starts_with line (codes "WEND")
    then wifi_end
    else if starts_with line (codes "DA,")
    then parse_deauth line
    else if starts_with line (codes "ATK,")
    then parse_attack line
    else if starts_with line (codes "LOC,")
    then parse_locate line
    else if starts_with line (codes "ACT,")
    then parse_action line
    else if starts_with line (codes "CHIP,")
    then parse_chip line
    else if starts_with line (codes "BAND,")
    then parse_band line
    else if starts_with line (codes "GPSCFG,")
    then parse_gps_cfg line
    else if starts_with line (codes "G,")
    then parse_gps line
    else if starts_with line (codes "BBEGIN")
    then ble_begin
    else if starts_with line (codes "BEND")
    then ble_end
    else if starts_with line (codes "SV,")
    then parse_survey line
    else if starts_with line (codes "RID,")
    then parse_rid line
    else if starts_with line (codes "BLE,")
    then parse_ble (esp_split_fields line 10)
    else if starts_with line (codes "W,")
    then parse_wifi line
    else if starts_with line (codes "S,")
    then parse_status line
    else if starts_with line (codes "D,")
    then parse_flock ex (esp_split_fields line 16)
    else ignored
