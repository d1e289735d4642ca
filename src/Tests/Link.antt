-- ===== src/Tests/Link.antt =====
-- The link to the board: lost bytes, and a line of a dump that is heard twice.
use flip_de_flock.Common.{List, [], arith, false, inl, inr, none, refl, replicate, some, ◌∷◌, ◌≡◌}
use flip_de_flock.Common.Bytes.{codes}
use flip_de_flock.Common.Int.{negsuc}
use flip_de_flock.EspLink.{EspLink, finish_line, lose_byte, worker_byte}
use flip_de_flock.EspLink.Refine.{Tracks, delivered-eq-sound_lines}
use flip_de_flock.EspLink.Segments.{Rx, came, delivered, missed, sound_lines}
use flip_de_flock.ReconApp.Dumps.{repeat_absorbed}
use flip_de_flock.ReconApp.Survey.{SurveyEntry, SurveyLine, blank_row, recon_app_survey_add}
use flip_de_flock.Tests.Table.{floats, later, mac_a, mac_b, session}

abbrev idle : EspLink
idle = record {
  line = [];
  skip_line = false;
  lines = 0;
  dropped = 0;
  rx_dropped = 0;
  line_rx_dropped = 0;
}

-- A whole line, a line with a hole, and a whole line.
abbrev events : List Rx
events =
    came b'h'
    ∷ came b'i'
    ∷ came b'\n'
    ∷ came b'o'
    ∷ missed
    ∷ came b'k'
    ∷ came b'\n'
    ∷ came b'y'
    ∷ came b'\n'
    ∷ []

idle-Tracks : Tracks [] 0 idle
idle-Tracks = record {
  counted = refl;
  in_word = omega arith;
  held = λ h. (refl, omega arith);
  skipped = λ h. cc;
}

delivered-eq-sound_lines_example : delivered events idle ≡ sound_lines [] 0 events
delivered-eq-sound_lines_example =
    delivered-eq-sound_lines events [] 0 idle (omega arith) idle-Tracks

two_lines : delivered events idle ≡ codes "hi" ∷ codes "y" ∷ []
unfolding delivered worker_byte finish_line lose_byte
two_lines = refl

abbrev line_of_dump : SurveyLine
line_of_dump = record {
  mac = mac_b;
  fp = 77;
  rssi = negsuc 50;
  channel = 6;
  count = 40;
  fp2 = 78;
  sig = some (codes "0,1,50");
}

-- A survey without room, whose rows were heard once.
abbrev full_survey : List SurveyEntry
full_survey = replicate 48 (record (blank_row mac_a) { count = 1 })

repeat_absorbed_example :
    let once = recon_app_survey_add floats none later line_of_dump (full_survey, session) in
    recon_app_survey_add floats none later line_of_dump once ≡ once
repeat_absorbed_example =
    repeat_absorbed floats none later later line_of_dump full_survey session
      (inr (inr (inl (omega arith))))
