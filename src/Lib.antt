-- ===== src/Lib.antt =====
-- FlipDeFlock: a Flipper Zero application that lists surveillance devices near its owner. An ESP32
-- board hears the radio and sends lines over a UART; the application parses them, ranks each
-- sighting by its evidence, keeps a table of devices, raises an alert, and writes reports.
--
-- The path of a line: helpers/esp_link.c collects the bytes of a line, helpers/esp_parser.c splits it
-- and turns it into a message, asking helpers/flock_db.c (prefixes, network names, fingerprints) what
-- the sender's claim is worth. A BLE advert is classified by helpers/flock_ble.c, a line of a text
-- console by helpers/marauder_scan.c. recon_app.c records each sighting: it drops what the owner
-- excluded (helpers/detect_rules.c; the exclusions live in a file that helpers/sig_db.c keeps), finds
-- or makes the row of the device, evicts a stored row when the table is full (helpers/flock_store.c
-- has the order, and the line of a stored row), and raises the alert by the gate of
-- helpers/detect_rules.c. A position comes from a receiver (helpers/gps_link.c, helpers/gps_parser.c)
-- or from a phone (helpers/gps_rpc.c, helpers/gps_rpc_convert.c). helpers/preflight.c judges the link,
-- helpers/survey_rank.c sorts the probe survey, and reports are printed through helpers/report_fmt.c
-- and helpers/report_escape.c.
--
-- Which file models which part:
--   Common, Common/*     C strings as lists of bytes, `atoi`, `strtol` and `strtoul`, the printing of
--                        numbers, integers with a sign, addresses, searches, Boolean tests.
--   FlockDb, FlockDb/*   helpers/flock_db.c. The user's signatures, a global pointer there, are an
--                        argument here; `none` is NULL.
--   EspParser/*          helpers/esp_parser.c: Fields (splitting, hex), Detection (`parse_flock`),
--                        Advert (`parse_ble`), Line (`esp_parse_companion_line`, one function for
--                        each branch), and the proofs Lossless, Payload, Dispatch, Trust.
--   Marauder             helpers/marauder_scan.c; Counts and Hits are proofs.
--   ReconApp/*           recon_app.c: Types, Report (`recon_app_report_flock`), Purge
--                        (`recon_app_purge_excluded`), Remote (`recon_app_report_remote_id`),
--                        Link (status, liveness and alert ticks), Survey
--                        (`recon_app_survey_add`, `recon_app_set_ble_tell`), Ble, Wifi and Board (the
--                        other tables and what the board says of itself), Exclude
--                        (`recon_app_exclude_device`), Saved (`recon_hits_rec_from_entry`,
--                        `recon_hits_add`), Load (`recon_hits_load`), Companion
--                        (`esp_apply_companion` and `esp_parse_generic` of helpers/esp_link.c), and
--                        the proofs Victim, Rows, Claim, Table, Gates, Alerts, Once, Counters,
--                        Diagnostics, Drone, Broadcasts, Dumps, Quiet, Excluded, Fits, Lines.
--   SigDb                helpers/sig_db.c, learned.txt and ignored.txt: Storage (the calls of the
--                        firmware, an argument), Lines (reading, appending), Learn (the operations),
--                        and the proofs Hex, Text, Append, Exclusion, Refine.
--   EspLink              helpers/esp_link.c, the byte loop and the interrupt; Segments has the
--                        specification, Refine the proof.
--   GpsParser            helpers/gps_parser.c; Convert is helpers/gps_rpc_convert.c, Checksum a proof.
--   GpsLink              helpers/gps_link.c; Phone is helpers/gps_rpc.c, Sane a proof.
--   DetectRules          helpers/detect_rules.c.   SurveyRank    helpers/survey_rank.c.
--   FlockBle             helpers/flock_ble.c.      Preflight     helpers/preflight.c.
--   OuiVendor            helpers/oui_vendor.c.
--   FlockStore           helpers/flock_store.c; Line writes a stored hit, Parse reads it; the other
--                        children are proofs.
--   ReportFmt            helpers/report_fmt.c.     ReportEscape  helpers/report_escape.c.
--   RemoteId             helpers/open_drone_id.c; Text, Merge and Whole are proofs.
--   Tests/*              the theorems at concrete inputs.
-- Functions keep the names of the source. A component's child modules with no code of their own hold
-- proofs about it.
--
-- A C string is the list of its bytes without the NUL, a read behind its end gives 0, and a text that
-- a message points to is the text itself. Counters and ticks are `uint32_t` with their wrap-around
-- written out; `unsigned long` has 32 bits, as on the device. Tables that are an array and a count are
-- lists, and the capacity is tested where the source tests it. A mutex makes each function one step.
-- The clock is an argument. `malloc` succeeds and no pointer that the callers pass is NULL, unless a
-- definition says so. Of floats the code of ReconApp only uses copies, NAN and `isnan`, which are the
-- parameter `FloatOps`; the scales of RemoteId are the parameter `OdidFloats`, the arithmetic of
-- positions and of the locator `GpsFloats`, and the digits of a printed float `FloatText`. The card is
-- the parameter `Storage`, and `IsReliable` says that its calls succeed and that a file holds what was
-- written. Every loop is a recursion on its list or on the number of rounds left, which is the length
-- of the list; the digits of a number need ten rounds, which `uint32_t` fits. So nothing needs fuel.
--
-- Not modelled: of recon_app.c the files survey.csv and the settings, the writing of hits.csv and the
-- swap of its files, and the power and start-up of the board; of helpers/sig_db.c the JSON file, which
-- needs the library lib/jsmn; of the links the ports and the threads; scenes, views and plugins, which
-- call the firmware; the float formulas of helpers/fast_trig.c and of the distance in
-- helpers/detect_rules.c; the firmware of the ESP32 board; the libraries under lib/.

pub mod Common
pub mod FlockDb
pub mod EspParser
pub mod Preflight
pub mod OuiVendor
pub mod FlockBle
pub mod ReportFmt
pub mod FlockStore
pub mod ReportEscape
pub mod DetectRules
pub mod SurveyRank
pub mod Marauder
pub mod RemoteId
pub mod SigDb
pub mod GpsParser
pub mod EspLink
pub mod GpsLink
pub mod ReconApp
pub mod Tests
