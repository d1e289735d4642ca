-- ===== src/FlockDb/Types.antt =====
-- The enums of helpers/flock_db.h and the signatures that a user may add.
use flip_de_flock.Common.{Bool, List, Option, false, true, ℕ, ◌==◌}
use flip_de_flock.Common.Bytes.{Bytes}
use flip_de_flock.Common.Mac.{Mac, Oui}

pub data FlockConfidence : Type 0 where
  conf_none possible likely probe_fp confirmed : FlockConfidence

-- The value of the C enum, by which rungs are compared.
abbrev pub rung : FlockConfidence → ℕ
rung conf_none = 0
rung possible = 1
rung likely = 2
rung probe_fp = 3
rung confirmed = 4

-- `a == b` on the enum
abbrev pub conf_eq : FlockConfidence → FlockConfidence → Bool
conf_eq a b = rung a == rung b

pub data FlockDevClass : Type 0 where
  alpr acoustic bodycam gear drone_class : FlockDevClass

pub data FlockVendor : Type 0 where
  unknown flock_safety sound_thinking axon ubicquia motorola verkada genetec avigilon utility
        digital_ally drone_maker :
      FlockVendor

pub data FlockIeFp : Type 0 where
  fp_none builtin candidate user : FlockIeFp

pub data FlockMethod : Type 0 where
  method_unknown by_ssid by_ie_fp by_pin by_oui by_ble by_sig : FlockMethod

-- `FlockDbExtras`. `macs` is a pointer that may be NULL.
pub record FlockDbExtras : Type 0 where
  pub ouis : List Oui
  pub ssid_confirmed : List Bytes
  pub ssid_likely : List Bytes
  pub ie_fps : List ℕ
  pub macs : Option (List Mac)

-- `g_extras`, which may be NULL, is passed to each function that reads it.
abbrev pub Extras : Type 0
Extras = Option FlockDbExtras

abbrev pub is_fp_none : FlockIeFp → Bool
is_fp_none fp_none = true
is_fp_none _ = false

abbrev pub is_flock_safety : FlockVendor → Bool
is_flock_safety flock_safety = true
is_flock_safety _ = false
