-- ===== src/DetectRules/Rate.antt =====
-- The frame rate.
use flip_de_flock.Common.{arith, min, ℕ, ◌*◌, ◌-◌, ◌/◌, ◌<◌, ◌^◌, ◌↔◌, ◌≡◌, ◌≤◌, ◌⊎◌}
use flip_de_flock.Common.Int.{negsuc, pos}
use flip_de_flock.DetectRules.{esp_frames_rate}

-- There is no rate exactly when no time passed or the lifetime counter fell.
pub frames_rate_none_iff :
    (prev now elapsed : ℕ)
    → (esp_frames_rate prev now elapsed ≡ negsuc 0) ↔ ((elapsed ≡ 0) ⊎ (now < prev))
unfolding esp_frames_rate
frames_rate_none_iff prev now elapsed = ground arith

-- For `uint32_t` counters that did not fall, over an interval that is not empty, the rate is the
-- number of frames in a second rounded down and clamped at 99999: the product in between does not
-- overflow.
frames_rate_exact :
    (prev now elapsed : ℕ)
    → now < 2 ^ 32
    → prev ≤ now
    → 0 < elapsed
    → esp_frames_rate prev now elapsed ≡ pos (min 99999 ((now - prev) * 1000 / elapsed))
unfolding esp_frames_rate
frames_rate_exact prev now elapsed h le lt = ground arith
