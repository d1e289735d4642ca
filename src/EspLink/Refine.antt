-- ===== src/EspLink/Refine.antt =====
-- The worker hands over exactly the whole lines.
use flip_de_flock.Common.{
  ==_iff, Bool-cases, List, [], ap, arith, false, inl, inr, length, length-append, ltb, ltb→lt,
  none, refl, sym, true, ℕ, ◌%◌, ◌++◌, ◌+◌, ◌-◌, ◌<◌, ◌==◌, ◌^◌, ◌∙◌, ◌∷◌, ◌≡◌, ◌≢◌, ◌≤◌,
}
use flip_de_flock.Common.Bytes.{Bytes, is_empty}
use flip_de_flock.EspLink.{EspLink, esp_line_max, finish_line, is_line_end, lose_byte, worker_byte}
use flip_de_flock.EspLink.Segments.{Rx, came, delivered, if_sound, missed, or_nothing, sound_lines}

-- The link after the bytes `seg` since the last line end, with `gaps` missed among them.
pub record Tracks (seg : Bytes) (gaps : ℕ) (esp : EspLink) : Type 0 where
  pub counted : esp.rx_dropped ≡ (esp.line_rx_dropped + gaps) % 2 ^ 32
  pub in_word : esp.line_rx_dropped < 2 ^ 32
  pub held : esp.skip_line ≡ false → (esp.line ≡ seg) × (length seg < esp_line_max)
  pub skipped : esp.skip_line ≡ true → esp_line_max ≤ length seg

ltb-false : (a b : ℕ) → ltb a b ≡ false → b ≤ a
ltb-false a b h = ground arith

eq_test-ne : (a b : ℕ) → (a == b) ≡ false → a ≢ b
eq_test-ne a b h e = ground arith

ne-eq_test : (a b : ℕ) → a ≢ b → (a == b) ≡ false
ne-eq_test a b h = ground arith

is_empty-eq : (s : Bytes) → is_empty s ≡ true → s ≡ []
is_empty-eq [] h = refl
is_empty-eq (c ∷ s) h = cc

lose-Tracks :
    (seg : Bytes) (gaps : ℕ) (esp : EspLink)
    → Tracks seg gaps esp
    → Tracks seg (gaps + 1) (lose_byte esp)
unfolding lose_byte
lose-Tracks seg gaps esp v = record {
  counted = omega (arith, v.counted);
  in_word = v.in_word;
  held = v.held;
  skipped = v.skipped;
}

byte-Tracks :
    (seg : Bytes) (gaps c : ℕ) (esp : EspLink)
    → is_line_end c ≡ false
    → Tracks seg gaps esp
    → Tracks (seg ++ c ∷ []) gaps (worker_byte c esp).0 × ((worker_byte c esp).1 ≡ none)
unfolding worker_byte
byte-Tracks seg gaps c esp n v = elim (Bool-cases esp.skip_line) [
  | inl skip ↦
      rw (n, skip)
        (
          record {
            counted = v.counted;
            in_word = v.in_word;
            held = λ h. absurd (cc h);
            skipped = λ h. omega (arith, v.skipped skip, length-append seg (c ∷ []));
          },
          refl,
        )
  | inr keep ↦
      let (e, l) = v.held keep in
      elim (Bool-cases (ltb (length esp.line) (esp_line_max - 1))) [
        | inl room ↦
            rw (n, keep, room)
              (
                record {
                  counted = v.counted;
                  in_word = v.in_word;
                  held = λ h. (
                    ap (λ s. s ++ c ∷ []) e,
                    omega (
                      arith,
                      length-append seg (c ∷ []),
                      ap length e,
                      ltb→lt (length esp.line) (esp_line_max - 1) room,
                    ),
                  );
                  skipped = λ h. absurd (cc h);
                },
                refl,
              )
        | inr full ↦
            rw (n, keep, full)
              (
                record {
                  counted = v.counted;
                  in_word = v.in_word;
                  held = λ h. absurd (cc h);
                  skipped = λ h. omega (
                    arith,
                    length-append seg (c ∷ []),
                    ap length e,
                    ltb-false (length esp.line) (esp_line_max - 1) full,
                  );
                },
                refl,
              )
      ]
]

-- Nothing was lost exactly if the counter stands where it stood.
counter_lem :
    (seg : Bytes) (gaps : ℕ) (esp : EspLink)
    → gaps < 2 ^ 32
    → Tracks seg gaps esp
    → (esp.rx_dropped == esp.line_rx_dropped) ≡ (gaps == 0)
counter_lem seg gaps esp g v = elim (Bool-cases (gaps == 0)) [
  | inl none_lost ↦
      let e = (==_iff gaps 0).0 none_lost in
      (==_iff esp.rx_dropped esp.line_rx_dropped).1 (omega (arith, v.counted, v.in_word))
      ∙ sym none_lost
  | inr some_lost ↦
      ne-eq_test esp.rx_dropped esp.line_rx_dropped
        (λ e. eq_test-ne gaps 0 some_lost (omega (arith, v.counted, v.in_word)))
      ∙ sym some_lost
]

fresh-Tracks :
    (esp : EspLink)
    → esp.rx_dropped < 2 ^ 32
    → esp.line ≡ []
    → esp.skip_line ≡ false
    → Tracks [] 0 (record esp { line_rx_dropped = esp.rx_dropped })
fresh-Tracks esp h l s = record {
  counted = omega arith;
  in_word = h;
  held = λ k. (l, omega arith);
  skipped = λ k. absurd (cc (s, k));
}

end-Tracks :
    (seg : Bytes) (gaps c : ℕ) (esp : EspLink)
    → is_line_end c ≡ true
    → gaps < 2 ^ 32
    → Tracks seg gaps esp
    → Tracks [] 0 (worker_byte c esp).0 × ((worker_byte c esp).1 ≡ if_sound seg gaps)
unfolding worker_byte finish_line
end-Tracks seg gaps c esp n g v =
    let word : esp.rx_dropped < 2 ^ 32 = omega (arith, v.counted) in
    elim (Bool-cases esp.skip_line) [
      | inl skip ↦
          let long : ltb (length seg) esp_line_max ≡ false = ground (arith, v.skipped skip) in
          rw (n, skip)
            (
              fresh-Tracks (record esp { skip_line = false; line = [] }) word refl refl,
              ground (arith, long),
            )
      | inr keep ↦
          let (e, l) = v.held keep in
          let fits : ltb (length seg) esp_line_max ≡ true = ground (arith, l) in
          let test = counter_lem seg gaps esp g v in
          elim (Bool-cases (gaps == 0)) [
            | inr some_lost ↦
                rw (n, keep, test, some_lost)
                  (
                    fresh-Tracks
                        (record esp {
                          line = [];
                          dropped = (esp.dropped + 1) % 2 ^ 32;
                          skip_line = false;
                        })
                        word refl refl,
                    refl,
                  )
            | inl none_lost ↦ elim (Bool-cases (is_empty seg)) [
              | inl bare ↦
                  rw (n, keep, test, none_lost, e, bare)
                    (
                      fresh-Tracks (record esp { line = seg; skip_line = false }) word
                          (is_empty-eq seg bare) refl,
                      refl,
                    )
              | inr some_text ↦
                  rw (n, keep, test, none_lost, e, some_text, fits)
                    (
                      fresh-Tracks
                          (record esp {
                            lines = (esp.lines + 1) % 2 ^ 32;
                            line = [];
                            skip_line = false;
                          })
                          word refl refl,
                      refl,
                    )
            ]
          ]
    ]

-- From a state that tracks what came since the last line end, and for fewer than 2 ^ 32 events, each
-- a byte that the worker takes or a loss that it learns of between two bytes: the lines that reach
-- the parser are exactly those that are not empty, fit the buffer and have no loss between their
-- ends. Neither the rest of an overlong line nor a line with a loss is parsed, and no whole line is
-- missed.
pub delivered-eq-sound_lines :
    (es : List Rx) (seg : Bytes) (gaps : ℕ) (esp : EspLink)
    → gaps + length es < 2 ^ 32
    → Tracks seg gaps esp
    → delivered es esp ≡ sound_lines seg gaps es
unfolding delivered sound_lines
delivered-eq-sound_lines [] seg gaps esp h v = refl
delivered-eq-sound_lines (missed ∷ es) seg gaps esp h v =
    delivered-eq-sound_lines es seg (gaps + 1) (lose_byte esp) (omega arith)
      (lose-Tracks seg gaps esp v)
delivered-eq-sound_lines (came c ∷ es) seg gaps esp h v = elim (Bool-cases (is_line_end c)) [
  | inl n ↦
      let (w, e) = end-Tracks seg gaps c esp n (omega arith) v in
      rw (n, e)
        (ap (or_nothing (if_sound seg gaps))
          (delivered-eq-sound_lines es [] 0 (worker_byte c esp).0 (omega arith) w))
  | inr n ↦
      let (w, e) = byte-Tracks seg gaps c esp n v in
      rw (n, e)
        (delivered-eq-sound_lines es (seg ++ c ∷ []) gaps (worker_byte c esp).0 (omega arith) w)
]
