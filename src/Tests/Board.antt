-- ===== src/Tests/Board.antt =====
-- A line of the board, from the wire to the tables.
use flip_de_flock.Common.{List, [], arith, false, none, true, ◌∷◌}
use flip_de_flock.Common.Bytes.{Bytes, codes}
use flip_de_flock.Common.Int.{negsuc, pos, ℤ}
use flip_de_flock.ReconApp.Ble.{BleTable}
use flip_de_flock.ReconApp.Board.{Board, Locator, relay_unknown}
use flip_de_flock.ReconApp.Companion.{Session, Setup}
use flip_de_flock.ReconApp.Lines.{AllFit, esp_lines, lines-AllFit}
use flip_de_flock.ReconApp.Types.{Clock, ReconApp}
use flip_de_flock.Tests.Gps.{no_position, whole_degrees}
use flip_de_flock.Tests.Remote.{scales}
use flip_de_flock.Tests.Table.{later, mac_b, session}

abbrev no_ble : BleTable ℤ
no_ble = record { devices = []; scanning = false; done = false; seen = 0; scans = 0 }

abbrev no_locator : Locator ℤ
no_locator = record {
  rssi = pos 0;
  tick = 0;
  have = false;
  peak = pos 0;
  ema = pos 0;
  trend = pos 0;
  init = false;
}

abbrev new_board : Board
new_board = record {
  build = [];
  revision = [];
  sig_mismatch = false;
  sigtest_hash = 0;
  sigtest_seen = false;
  sigtest_pass = false;
  chip_name = [];
  gpio_count = 0;
  gps_pin_mask = 0;
  has_5ghz = false;
  band_actual = 0;
  band_channels = 0;
  gps_cfg_resend = false;
  gps_relay = relay_unknown;
  gps_relay_pin = negsuc 0;
  gps_relay_baud = 0;
}

abbrev new_app : ReconApp ℤ
new_app = record {
  flock = [];
  selected = negsuc 0;
  hits_dirty = false;
  ignore_macs = [];
  ignore_fps = [];
  alert = record {
    min_conf_choice = 1;
    pending = false;
    last_tick = 0;
    have_fired = false;
    card_mac = mac_b;
    card_tick = 0;
    fired = 0;
  };
  gps = no_position;
  link = session.link;
  diag = record { flock_msgs = 0; accepted = 0; rej_conf = 0; rej_full = 0; rej_ignored = 0 };
}

abbrev new_session : Session ℤ
new_session = record {
  app = new_app;
  survey_rows = [];
  ble = no_ble;
  wifi = record { aps = []; scanning = false; done = false };
  board = new_board;
  locator = no_locator;
  lines = 0;
  dropped = 0;
  dropped_lines = 0;
}

abbrev setup : Setup ℤ
setup = record {
  fo = record { nan = negsuc 999; isnan = whole_degrees.isnan };
  gf = whole_degrees;
  rid = scales;
  ex = none;
  relays_gps = true;
  companion = true;
}

new-AllFit : AllFit new_session
new-AllFit = record {
  hits = record { fits = omega arith; one_each = tt };
  survey_fits = omega arith;
  ble_fits = omega arith;
  wifi_fits = omega arith;
}

-- A banner, a device of the survey, and a line that is no message.
abbrev some_lines : List (Clock × Bytes)
some_lines =
    (later, codes "FLOCKCO,1,0.88")
    ∷ (later, codes "SV,06fccb3af89e,-26,6,89c3debf,10")
    ∷ (later, codes "F,?")
    ∷ []

lines-AllFit_example : AllFit (esp_lines setup some_lines new_session)
lines-AllFit_example = lines-AllFit setup some_lines new_session new-AllFit
