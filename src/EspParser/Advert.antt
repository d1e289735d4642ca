-- ===== src/EspParser/Advert.antt =====
-- `parse_ble`: a BLE line, from its fields to an advertiser.
use flip_de_flock.Common.{
  Bool, List, [], drop, false, if◌then◌else◌, leb, length, ltb, none, some, true, ℕ, ◌∷◌,
}
use flip_de_flock.Common.Bytes.{Bytes, bytes_eq, codes, has_byte, is_empty}
use flip_de_flock.Common.Libc.{atoi, to_i8, to_u16, to_u8}
use flip_de_flock.Common.Mac.{Mac}
use flip_de_flock.EspParser.Fields.{field, hex_bytes, parse_mac_field}
use flip_de_flock.EspParser.Message.{BleMsg, EspMsg, ble_dev, ignored}

-- What the fields after the name set.

pub record AdvertTrailers : Type 0 where
  pub mfg : Bytes
  pub raven_gatt : Bool
  pub tracker_separated : Bool
  pub bwc_tag : Bool

abbrev pub mfg_max : ℕ
mfg_max = 32

-- The body of the loop over the trailers. A field with no '=' is hex, and the first one that holds
-- any is the one that is kept.
unfoldable pub read_advert_trailer : Bytes → AdvertTrailers → AdvertTrailers
read_advert_trailer t v =
    if has_byte t b'='
    then if bytes_eq t (codes "rv=1")
      then record v { raven_gatt = true }
      else if bytes_eq t (codes "sep=1")
      then record v { tracker_separated = true }
      else if bytes_eq t (codes "bwc=1")
      then record v { bwc_tag = true }
      else v
    else if is_empty v.mfg
    then record v { mfg = hex_bytes mfg_max t }
    else v

unfoldable pub read_advert_trailers : List Bytes → AdvertTrailers → AdvertTrailers
read_advert_trailers [] v = v
read_advert_trailers (t ∷ ts) v = read_advert_trailers ts (read_advert_trailer t v)

abbrev pub advert_trailers : List Bytes → AdvertTrailers
advert_trailers f =
    read_advert_trailers (drop 6 f)
      (record { mfg = []; raven_gatt = false; tracker_separated = false; bwc_tag = false })

unfoldable pub ble_msg : Mac → List Bytes → BleMsg
ble_msg addr f =
    let t = advert_trailers f in
    record {
      addr = addr;
      name = if leb 6 (length f) then field f 5 else [];
      rssi = to_i8 (atoi (field f 2));
      cat = to_u8 (atoi (field f 3));
      company = to_u16 (atoi (field f 4));
      mfg = t.mfg;
      raven_gatt = t.raven_gatt;
      tracker_separated = t.tracker_separated;
      bwc_tag = t.bwc_tag;
    }

unfoldable pub parse_ble : List Bytes → EspMsg
parse_ble f = if ltb (length f) 5 then ignored else elim (parse_mac_field (field f 1)) [
  | none ↦ ignored
  | some addr ↦ ble_dev (ble_msg addr f)
]
