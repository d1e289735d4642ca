-- ===== src/FlockBle.antt =====
-- helpers/flock_ble.c: what a Bluetooth advert says about a device.
pub mod Serial
pub mod Evidence
pub mod Naming
use flip_de_flock.Common.{
  Bool, List, Option, [], drop, false, if◌then◌else◌, leb, length, ltb, none, not, some, suc, take,
  true, zero, ℕ, ◌%◌, ◌&&◌, ◌+◌, ◌-◌, ◌==◌, ◌^◌, ◌||◌, ◌∷◌,
}
use flip_de_flock.Common.Bytes.{Bytes, between, char_at, codes, is_empty, nul}
use flip_de_flock.Common.Mac.{Mac}
use flip_de_flock.Common.Search.{any_of}
use flip_de_flock.FlockDb.Method.{in_any_oui_table}
use flip_de_flock.FlockDb.Types.{Extras, FlockConfidence, confirmed, possible}

unfoldable pub ascii_upper : ℕ → ℕ
ascii_upper c = if between b'a' b'z' c then c - 32 else c

-- `ci_prefix`: the needle is upper-case, and the NUL that ends the name equals none of its bytes.
unfoldable pub prefix_upper : Bytes → Bytes → Bool
prefix_upper s [] = true
prefix_upper [] (n ∷ ns) = false
prefix_upper (c ∷ s) (n ∷ ns) = ascii_upper c == n && prefix_upper s ns

unfoldable pub ci_prefix : Option Bytes → Bytes → Bool
ci_prefix none needle = false
ci_prefix (some s) needle = prefix_upper s needle

unfoldable pub prefix_somewhere : Bytes → Bytes → Bool
prefix_somewhere [] needle = false
prefix_somewhere (c ∷ s) needle = prefix_upper (c ∷ s) needle || prefix_somewhere s needle

-- `ci_contains` of this file.
unfoldable pub ci_contains_upper : Option Bytes → Bytes → Bool
ci_contains_upper none needle = false
ci_contains_upper (some s) [] = false
ci_contains_upper (some s) (n ∷ ns) = prefix_somewhere s (n ∷ ns)

abbrev pub hex_any_case : ℕ → Bool
hex_any_case c = between b'0' b'9' c || between b'A' b'F' (ascii_upper c)

-- The loop over `name[3..8]`; the NUL of a short name is no hex digit.
unfoldable pub hex_places : ℕ → ℕ → Bytes → Bool
hex_places zero i s = true
hex_places (suc n) i s = hex_any_case (char_at s i) && hex_places n (i + 1) s

unfoldable pub is_fs_unit_name : Option Bytes → Bool
is_fs_unit_name none = false
is_fs_unit_name (some s) =
    ascii_upper (char_at s 0) == b'F'
    && (ascii_upper (char_at s 1) == b'S'
        && (char_at s 2 == b'-' && (hex_places 6 3 s && char_at s 9 == nul)))

unfoldable pub flock_ble_name_is_flock : Option Bytes → Bool
flock_ble_name_is_flock name =
    if ci_prefix name (codes "PENGUIN-") || ci_contains_upper name (codes "FS EXT")
    then true
    else if ci_prefix name (codes "PIGVISION") || ci_prefix name (codes "FLOCKCAM")
    then true
    else if ci_prefix name (codes "RWLS-")
    then true
    else is_fs_unit_name name

abbrev pub flock_ble_company_id : ℕ
flock_ble_company_id = 0x09C8

abbrev pub axon_ble_company_id : ℕ
axon_ble_company_id = 0x034D

unfoldable pub flock_ble_confidence : ℕ → Option Bytes → Bool → FlockConfidence
flock_ble_confidence company name raven_gatt =
    if company == flock_ble_company_id
    then confirmed
    else if company == axon_ble_company_id
    then confirmed
    else if raven_gatt
    then confirmed
    else if flock_ble_name_is_flock name
    then confirmed
    else possible

pub data FlockBleTell : Type 0 where
  tell_none tell_mfg_id tell_raven_gatt tell_naming tell_oui_only : FlockBleTell

-- The address may be NULL, which no matcher finds.
unfoldable pub flock_ble_tell : Extras → ℕ → Option Bytes → Bool → Option Mac → FlockBleTell
flock_ble_tell ex company name raven_gatt addr =
    if company == flock_ble_company_id || company == axon_ble_company_id
    then tell_mfg_id
    else if raven_gatt
    then tell_raven_gatt
    else if flock_ble_name_is_flock name
    then tell_naming
    else if in_any_oui_table ex addr
    then tell_oui_only
    else tell_none

pub flock_ble_tell_str : FlockBleTell → Bytes
flock_ble_tell_str tell_mfg_id = codes "BLE mfg"
flock_ble_tell_str tell_raven_gatt = codes "BLE GATT"
flock_ble_tell_str tell_naming = codes "BLE name"
flock_ble_tell_str tell_oui_only = codes "BLE OUI"
flock_ble_tell_str tell_none = codes "BLE"

-- A printable byte that is a digit or a letter.
abbrev pub serial_byte : ℕ → Bool
serial_byte b =
    (leb 0x20 b && ltb b 0x7f) && (between b'0' b'9' b || between b'A' b'Z' (ascii_upper b))

-- The variables of the scan for the longest run.
pub record Scan : Type 0 where
  pub best_start : ℕ
  pub best_len : ℕ
  pub run_start : ℕ
  pub run_len : ℕ

-- The body of the scan's loop.
unfoldable pub scan_step : Bytes → ℕ → Scan → Scan
scan_step mfg i sc =
    if ltb i (length mfg) && serial_byte (char_at mfg i)
    then record sc {
      run_start = if sc.run_len == 0 then i else sc.run_start;
      run_len = sc.run_len + 1;
    }
    else if ltb sc.best_len sc.run_len
    then record {
      best_start = sc.run_start;
      best_len = sc.run_len;
      run_start = sc.run_start;
      run_len = 0;
    }
    else record sc { run_len = 0 }

-- `for(i = 2; i <= len; i++)`, by the rounds that are left.
unfoldable pub scan_from : Bytes → ℕ → ℕ → Scan → Scan
scan_from mfg zero i sc = sc
scan_from mfg (suc rounds) i sc = scan_from mfg rounds (i + 1) (scan_step mfg i sc)

abbrev pub no_run : Scan
no_run = record { best_start = 0; best_len = 0; run_start = 0; run_len = 0 }

unfoldable pub scan_mfg : Bytes → Scan
scan_mfg mfg = scan_from mfg (length mfg - 1) 2 no_run

-- `serial_cap - 1`, a `size_t` of 32 bits, which wraps at 0.
abbrev pub last_place : ℕ → ℕ
last_place cap = (cap + (2 ^ 32 - 1)) % 2 ^ 32

abbrev pub cut_to : ℕ → Bytes → Bytes
cut_to cap s = take (if ltb (last_place cap) (length s) then last_place cap else length s) s

unfoldable pub serial_of_mfg : Bytes → ℕ → Option Bytes
serial_of_mfg mfg cap =
    let sc = scan_mfg mfg in
    if ltb 2 (length mfg) && leb 6 sc.best_len
    then some (cut_to cap (take sc.best_len (drop sc.best_start mfg)))
    else none

abbrev pub alnum : ℕ → Bool
alnum c = between b'0' b'9' c || (between b'A' b'Z' c || between b'a' b'z' c)

-- The loop over the name: whether it ends at the NUL, and whether it met a digit.
unfoldable pub all_alnum : Bytes → Bool
all_alnum [] = true
all_alnum (c ∷ s) = alnum c && all_alnum s

unfoldable pub any_digit : Bytes → Bool
any_digit [] = false
any_digit (c ∷ s) = between b'0' b'9' c || any_digit s

unfoldable pub serial_of_name : Bytes → ℕ → Option Bytes
serial_of_name name cap =
    let p = if prefix_upper name (codes "PENGUIN-") then drop 8 name else name in
    if all_alnum p && (leb 6 (length p) && any_digit p) then some (cut_to cap p) else none

abbrev pub bind_or {ℓ} : {A : Type ℓ} → Option A → Option A → Option A
bind_or none b = b
bind_or (some a) b = some a

abbrev pub of_name : Option Bytes → ℕ → Option Bytes
of_name none cap = none
of_name (some s) cap = if is_empty s then none else serial_of_name s cap

abbrev pub of_mfg : Option Bytes → ℕ → Option Bytes
of_mfg none cap = none
of_mfg (some m) cap = serial_of_mfg m cap

-- `mfg` includes the two bytes of the company id. `none` is the `false` of the source.
unfoldable pub flock_ble_extract_serial : Option Bytes → Option Bytes → ℕ → Option Bytes
flock_ble_extract_serial mfg name serial_cap =
    if serial_cap == 0 then none else bind_or (of_mfg mfg serial_cap) (of_name name serial_cap)

abbrev pub is_some {ℓ} : {A : Type ℓ} → Option A → Bool
is_some none = false
is_some (some a) = true

-- `k_generic_names`
abbrev pub k_generic_names : List Bytes
k_generic_names =
    codes "ESP32"
    ∷ codes "ESP_"
    ∷ codes "ESP-"
    ∷ codes "ARDUINO"
    ∷ codes "NRF"
    ∷ codes "BLUETOOTH"
    ∷ codes "UNKNOWN"
    ∷ codes "NONAME"
    ∷ []

-- The size of the `probe` buffer.
abbrev pub probe_cap : ℕ
probe_cap = 24

-- The tests for a name that is there and not empty.
unfoldable pub specificity_of : Bytes → ℕ
specificity_of s =
    if flock_ble_name_is_flock (some s)
      || is_some (flock_ble_extract_serial none (some s) probe_cap)
    then 3
    else if any_of (ci_prefix (some s)) k_generic_names
    then 1
    else if ci_prefix (some s) (codes "BT") && char_at s 2 == nul
    then 1
    else if ci_prefix (some s) (codes "BLE") && char_at s 3 == nul
    then 1
    else 2

unfoldable pub flock_ble_name_specificity : Option Bytes → ℕ
flock_ble_name_specificity none = 0
flock_ble_name_specificity (some []) = 0
flock_ble_name_specificity (some (c ∷ s)) = specificity_of (c ∷ s)

unfoldable pub flock_ble_name_should_replace : Option Bytes → Option Bytes → Bool
flock_ble_name_should_replace current offered =
    ltb (flock_ble_name_specificity current) (flock_ble_name_specificity offered)

pub data FlockBleModel : Type 0 where
  model_unknown model_generic model_falcon model_raven : FlockBleModel

unfoldable pub has_serial : Option Bytes → Bool
has_serial none = false
has_serial (some s) = not (is_empty s)

unfoldable pub flock_ble_model_ex : Option Bytes → Option Bytes → Bool → FlockBleModel
flock_ble_model_ex serial name raven_gatt =
    if raven_gatt
    then model_raven
    else if flock_ble_name_is_flock name
    then model_generic
    else if has_serial serial
    then model_generic
    else model_unknown

pub flock_ble_model_str : FlockBleModel → Bytes
flock_ble_model_str model_falcon = codes "Flock Falcon? (ALPR)"
flock_ble_model_str model_raven = codes "Flock Raven (audio)"
flock_ble_model_str model_generic = codes "Flock device (ext. battery)"
flock_ble_model_str model_unknown = codes "-"
