-- ===== src/RemoteId/Whole.antt =====
-- The decoder stays inside the payload.
use flip_de_flock.Common.{
  Bool-cases, arith, drop, inl, inr, length, length-drop, length-take, ltb, suc, zero, ℕ, ◌*◌, ◌+◌,
  ◌/◌, ◌==◌, ◌||◌, ◌≡◌, ◌≤◌,
}
use flip_de_flock.Common.Bytes.{Bytes, char_at}
use flip_de_flock.Common.Search.{All}
use flip_de_flock.RemoteId.{messages, messages_in}

abbrev pub IsMessage : Bytes → Type 0
IsMessage m = length m ≡ 25

messages-IsMessage : (n : ℕ) (s : Bytes) → n * 25 ≤ length s → All IsMessage (messages n s)
unfolding messages
messages-IsMessage zero s h = tt
messages-IsMessage (suc n) s h = (
  omega (arith, length-take 25 s, h),
  messages-IsMessage n (drop 25 s) (omega (arith, length-drop 25 s, h)),
)

-- Whatever size and count a pack claims, and whatever the length of the payload, each message that
-- is decoded is a run of 25 bytes that the payload has.
pub messages_in-IsMessage : (msgs : Bytes) → All IsMessage (messages_in msgs)
unfolding messages_in
messages_in-IsMessage msgs = elim (Bool-cases (char_at msgs 0 / 16 == 15)) [
  | inr h ↦ rw h (messages-IsMessage (length msgs / 25) msgs (omega arith))
  | inl h ↦ elim (Bool-cases (char_at msgs 1 == 25)) [
    | inr k ↦ rw (h, k) tt
    | inl k ↦ elim (Bool-cases (char_at msgs 2 == 0 || ltb 9 (char_at msgs 2))) [
      | inl l ↦ rw (h, k, l) tt
      | inr l ↦ elim (Bool-cases (ltb (length msgs) (char_at msgs 2 * 25 + 3))) [
        | inl n ↦ rw (h, k, l, n) tt
        | inr n ↦
            let room : char_at msgs 2 * 25 + 3 ≤ length msgs = ground (arith, n) in
            rw (h, k, l, n)
              (messages-IsMessage (char_at msgs 2) (drop 3 msgs)
                (omega (arith, length-drop 3 msgs, room)))
      ]
    ]
  ]
]
