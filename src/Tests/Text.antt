-- ===== src/Tests/Text.antt =====
-- Reports.
use flip_de_flock.Common.{some, suc, ◌≡◌}
use flip_de_flock.Common.Bytes.{Bytes, codes}
use flip_de_flock.ReportEscape.{json_escape}
use flip_de_flock.ReportEscape.Json.{JsonBody, json_escape-JsonBody}

json_escape-JsonBody_example :
    (out : Bytes) × (json_escape (codes "a\"b\\c") (suc 6) ≡ some out) × JsonBody out
json_escape-JsonBody_example = json_escape-JsonBody (codes "a\"b\\c") 6
