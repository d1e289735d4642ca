-- ===== src/Tests/Remote.antt =====
-- Remote ID adverts.
use flip_de_flock.Common.{arith, false, refl, replicate, ◌++◌, ◌∷◌, ◌≡◌}
use flip_de_flock.Common.Bytes.{Bytes, codes}
use flip_de_flock.Common.Int.{negsuc, pos, ℤ, ◌+ℤ◌}
use flip_de_flock.Common.Search.{All}
use flip_de_flock.RemoteId.{
  OdidFloats, copy_printable, copy_text, messages, messages_in, odid_parse_ble_service_data,
  odid_parse_messages, odid_report_init, parse_all, parse_basic_id, parse_one, trim_end,
}
use flip_de_flock.RemoteId.Merge.{Latched, service_data-Latched}
use flip_de_flock.RemoteId.Text.{CleanReport, service_data-CleanReport}
use flip_de_flock.RemoteId.Whole.{IsMessage, messages_in-IsMessage}

-- Degrees as integers, for the tests.
abbrev pub scales : OdidFloats ℤ
scales = record {
  nan = negsuc 0;
  of_ℕ = λ n. pos n;
  degrees = λ x. x;
  lat_off = λ x. false;
  lon_off = λ x. false;
  add_180 = λ x. x +ℤ pos 180;
  speed_low = λ x. x;
  speed_high = λ x. x;
  altitude = λ x. x;
}

-- A Basic ID message: a serial, padded, on a multirotor.
abbrev basic_id : Bytes
basic_id = 0x02 ∷ 0x12 ∷ (codes "DRONE-42  " ++ replicate 13 0)

abbrev advert : Bytes
advert = 0x0d ∷ 1 ∷ basic_id

empty-CleanReport : CleanReport (odid_report_init scales)
unfolding odid_report_init
empty-CleanReport = record {
  uas = record { fits = omega arith; printable = tt; trimmed = tt };
  operator = record { fits = omega arith; printable = tt; trimmed = tt };
}

service_data-CleanReport_example :
    CleanReport (odid_parse_ble_service_data scales advert (odid_report_init scales)).0
service_data-CleanReport_example =
    service_data-CleanReport scales advert (odid_report_init scales) empty-CleanReport

service_data-Latched_example :
    Latched scales
      (odid_report_init scales)
      (odid_parse_ble_service_data scales advert (odid_report_init scales)).0
service_data-Latched_example = service_data-Latched scales advert (odid_report_init scales)

-- A pack of two messages.
messages_in-IsMessage_example : All IsMessage (messages_in (0xf2 ∷ 25 ∷ 2 ∷ (basic_id ++ basic_id)))
messages_in-IsMessage_example = messages_in-IsMessage (0xf2 ∷ 25 ∷ 2 ∷ (basic_id ++ basic_id))

-- The advert names the aircraft.
serial_read :
    (odid_parse_ble_service_data scales advert (odid_report_init scales)).0.uas_id
    ≡ codes "DRONE-42"
unfolding odid_parse_ble_service_data odid_parse_messages parse_all messages_in messages parse_one
    parse_basic_id copy_text copy_printable trim_end odid_report_init
serial_read = refl
