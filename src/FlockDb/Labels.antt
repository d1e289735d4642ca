-- ===== src/FlockDb/Labels.antt =====
-- The labels of the enums.
pub mod Width
use flip_de_flock.Common.Bytes.{Bytes, codes}
use flip_de_flock.FlockDb.Types.{
  FlockConfidence, FlockDevClass, FlockMethod, FlockVendor, acoustic, alpr, avigilon, axon, bodycam,
  by_ble, by_ie_fp, by_oui, by_pin, by_sig, by_ssid, conf_none, confirmed, digital_ally,
  drone_class, drone_maker, flock_safety, gear, genetec, likely, method_unknown, motorola, possible,
  probe_fp, sound_thinking, ubicquia, unknown, utility, verkada,
}

pub flock_vendor_str : FlockVendor → Bytes
flock_vendor_str flock_safety = codes "Flock"
flock_vendor_str sound_thinking = codes "SoundThinking"
flock_vendor_str axon = codes "Axon"
flock_vendor_str ubicquia = codes "Ubicquia"
flock_vendor_str motorola = codes "Motorola"
flock_vendor_str verkada = codes "Verkada"
flock_vendor_str genetec = codes "Genetec"
flock_vendor_str avigilon = codes "Avigilon"
flock_vendor_str utility = codes "Utility"
flock_vendor_str digital_ally = codes "DigitalAlly"
flock_vendor_str drone_maker = codes "Drone"
flock_vendor_str unknown = codes "-"

-- The inner switch of `flock_device_long_str`.
unattributed_str : FlockDevClass → Bytes
unattributed_str acoustic = codes "Acoustic sensor"
unattributed_str bodycam = codes "Body/in-car kit"
unattributed_str drone_class = codes "Unmanned aircraft"
unattributed_str gear = codes "Surveillance gear"
unattributed_str alpr = codes "ALPR (unattributed)"

flock_camera_str : FlockDevClass → Bytes
flock_camera_str acoustic = codes "Flock Raven acoustic"
flock_camera_str _ = codes "Flock / ALPR camera"

pub flock_device_long_str : FlockVendor → FlockDevClass → Bytes
unfolding unattributed_str flock_camera_str
flock_device_long_str flock_safety c = flock_camera_str c
flock_device_long_str sound_thinking c = codes "SoundThinking sensor"
flock_device_long_str axon c = codes "Axon: body or fixed"
flock_device_long_str ubicquia c = codes "Ubicquia streetlight"
flock_device_long_str motorola c = codes "Motorola Solutions"
flock_device_long_str verkada c = codes "Verkada camera/AC"
flock_device_long_str genetec c = codes "Genetec (AutoVu)"
flock_device_long_str avigilon c = codes "Avigilon (Motorola)"
flock_device_long_str utility c = codes "Utility BodyWorn"
flock_device_long_str digital_ally c = codes "Digital Ally FirstVU"
flock_device_long_str drone_maker c = codes "Unmanned aircraft"
flock_device_long_str unknown c = unattributed_str c

pub flock_class_str : FlockDevClass → Bytes
flock_class_str acoustic = codes "Acoustic"
flock_class_str bodycam = codes "Body cam"
flock_class_str gear = codes "Gear"
flock_class_str drone_class = codes "Drone"
flock_class_str alpr = codes "ALPR"

pub flock_class_long_str : FlockDevClass → Bytes
flock_class_long_str acoustic = codes "SoundThinking sensor"
flock_class_long_str bodycam = codes "Axon: body or fixed"
flock_class_long_str gear = codes "Surveillance gear"
flock_class_long_str _ = codes "Flock / ALPR camera"

pub flock_confidence_str : FlockConfidence → Bytes
flock_confidence_str confirmed = codes "CONFIRMED"
flock_confidence_str probe_fp = codes "Class?"
flock_confidence_str likely = codes "Likely"
flock_confidence_str possible = codes "Possible"
flock_confidence_str conf_none = codes "-"

pub flock_method_str : FlockMethod → Bytes
flock_method_str by_ssid = codes "SSID"
flock_method_str by_ie_fp = codes "IE fp"
flock_method_str by_pin = codes "flagged MAC"
flock_method_str by_oui = codes "OUI"
flock_method_str by_ble = codes "BLE mfg ID"
flock_method_str by_sig = codes "probe sig"
flock_method_str method_unknown = codes "ESP probe rule"
