-- ===== src/RemoteId/Text.antt =====
-- What an advert can put on the screen and into the reports.
use flip_de_flock.Common.{
  Bool, Bool-cases, List, Option-cases, [], arith, drop, false, if◌then◌else◌, inl, inr, length,
  ltb, subst, suc, sym, take, true, zero, ℕ, ◌&&◌, ◌/◌, ◌==◌, ◌∷◌, ◌≡◌, ◌≢◌, ◌≤◌,
}
use flip_de_flock.Common.Bytes.{Bytes, between, char_at, is_empty}
use flip_de_flock.Common.Search.{All}
use flip_de_flock.RemoteId.{
  OdidFloats, OdidReport, copy_printable, copy_text, decode_latlon, messages_in,
  odid_parse_ble_service_data, odid_parse_messages, parse_all, parse_basic_id, parse_location,
  parse_one, parse_operator_id, parse_system, rd_i32, trim_end,
}

abbrev pub IsPrintable : ℕ → Type 0
IsPrintable c = between 0x20 0x7e c ≡ true

copy_printable_fits :
    (room : ℕ) (s : Bytes)
    → (length (copy_printable room s) ≤ room) × All IsPrintable (copy_printable room s)
unfolding copy_printable
copy_printable_fits zero [] = (omega arith, tt)
copy_printable_fits (suc room) [] = (omega arith, tt)
copy_printable_fits zero (c ∷ s) = (omega arith, tt)
copy_printable_fits (suc room) (c ∷ s) =
    let kept = copy_printable_fits room s in
    let dropped = copy_printable_fits (suc room) s in
    elim (Bool-cases (c == 0)) [
      | inl h ↦ rw h (omega arith, tt)
      | inr h ↦ elim (Bool-cases (between 0x20 0x7e c)) [
        | inl k ↦ rw (h, k) (omega (arith, kept.0), (k, kept.1))
        | inr k ↦ rw (h, k) dropped
      ]
    ]

-- The last byte is not a space.
abbrev pub IsTrimmed : Bytes → Type 0
IsTrimmed [] = Unit {0}
IsTrimmed (c ∷ []) = c ≢ b' '
IsTrimmed (c ∷ (d ∷ s)) = IsTrimmed (d ∷ s)

trim_end-le : (s : Bytes) → length (trim_end s) ≤ length s
unfolding trim_end
trim_end-le [] = omega arith
trim_end-le (c ∷ s) =
    let ih = trim_end-le s in
    elim (Bool-cases (c == b' ' && is_empty (trim_end s))) [
      | inl h ↦ rw h (omega arith)
      | inr h ↦ rw h (omega (arith, ih))
    ]

trim_end-IsPrintable : (s : Bytes) → All IsPrintable s → All IsPrintable (trim_end s)
unfolding trim_end
trim_end-IsPrintable [] p = tt
trim_end-IsPrintable (c ∷ s) p =
    let ih = trim_end-IsPrintable s p.1 in
    elim (Bool-cases (c == b' ' && is_empty (trim_end s))) [
      | inl h ↦ rw h tt
      | inr h ↦ rw h (p.0, ih)
    ]

cons-IsTrimmed :
    (c : ℕ) (s : Bytes) → (c == b' ' && is_empty s) ≡ false → IsTrimmed s → IsTrimmed (c ∷ s)
cons-IsTrimmed c [] h t = ground (arith, h)
cons-IsTrimmed c (d ∷ s) h t = t

trim_end-IsTrimmed : (s : Bytes) → IsTrimmed (trim_end s)
unfolding trim_end
trim_end-IsTrimmed [] = tt
trim_end-IsTrimmed (c ∷ s) =
    let ih = trim_end-IsTrimmed s in
    elim (Bool-cases (c == b' ' && is_empty (trim_end s))) [
      | inl h ↦ rw h tt
      | inr h ↦ rw h (cons-IsTrimmed c (trim_end s) h ih)
    ]

-- A text that fits its field of 21 bytes with the NUL, is printable ASCII and ends in no space.
pub record IsClean (s : Bytes) : Type 0 where
  pub fits : length s ≤ 20
  pub printable : All IsPrintable s
  pub trimmed : IsTrimmed s

copy_text-IsClean : (src : Bytes) (n : ℕ) → IsClean (copy_text src n 21)
unfolding copy_text
copy_text-IsClean src n =
    let t = copy_printable 20 (take n src) in
    let (le, p) = copy_printable_fits 20 (take n src) in
    record {
      fits = omega (arith, trim_end-le t, le);
      printable = trim_end-IsPrintable t p;
      trimmed = trim_end-IsTrimmed t;
    }

choice-IsClean : (b : Bool) (s t : Bytes) → IsClean s → IsClean t → IsClean (if b then s else t)
choice-IsClean true s t p q = p
choice-IsClean false s t p q = q

module _ {F : Type 0} where
  -- Both texts of a report are clean.
  pub record CleanReport (r : OdidReport F) : Type 0 where
    pub uas : IsClean r.uas_id
    pub operator : IsClean r.operator_id

  system-CleanReport :
      (fl : OdidFloats F) (m : Bytes) (r : OdidReport F)
      → CleanReport r
      → CleanReport (parse_system fl m r)
  unfolding parse_system
  system-CleanReport fl m r c = elim (Option-cases (decode_latlon fl (rd_i32 m 2) (rd_i32 m 6))) [
    | inl h ↦
        let same : parse_system fl m r ≡ r = ground (arith, h) in subst CleanReport (sym same) c
    | inr ((la, lo), h) ↦
        let same : parse_system fl m r ≡ record r { op_lat = la; op_lon = lo; have_system = true } =
          ground (arith, h) in
        subst CleanReport (sym same) (record { uas = c.uas; operator = c.operator })
  ]

  used-CleanReport :
      (fl : OdidFloats F) (m : Bytes) (r : OdidReport F)
      → CleanReport r
      → CleanReport (parse_one fl m r).0
  unfolding parse_one parse_basic_id parse_location parse_operator_id
  used-CleanReport fl m r c =
      let id = copy_text (drop 2 m) 20 21 in
      let clean = copy_text-IsClean (drop 2 m) 20 in
      elim (Bool-cases (char_at m 0 / 16 == 0)) [
        | inl h ↦ rw h (record {
          uas = choice-IsClean (is_empty id) r.uas_id id c.uas clean;
          operator = c.operator;
        })
        | inr h ↦ elim (Bool-cases (char_at m 0 / 16 == 1)) [
          | inl k ↦ rw (h, k) (record { uas = c.uas; operator = c.operator })
          | inr k ↦ elim (Bool-cases (char_at m 0 / 16 == 4)) [
            | inl l ↦ rw (h, k, l) (system-CleanReport fl m r c)
            | inr l ↦ elim (Bool-cases (char_at m 0 / 16 == 5)) [
              | inl n ↦
                  rw (h, k, l, n)
                    (record {
                      uas = c.uas;
                      operator = choice-IsClean (is_empty id) r.operator_id id c.operator clean;
                    })
              | inr n ↦ rw (h, k, l, n) c
            ]
          ]
        ]
      ]

  all-CleanReport :
      (fl : OdidFloats F) (ms : List Bytes) (r : OdidReport F)
      → CleanReport r
      → CleanReport (parse_all fl ms r).0
  unfolding parse_all
  all-CleanReport fl [] r c = c
  all-CleanReport fl (m ∷ ms) r c =
      all-CleanReport fl ms (parse_one fl m r).0 (used-CleanReport fl m r c)

  -- Whatever an aircraft sends, packed or not and in any order, the serial and the operator id of
  -- a report stay within 20 bytes of printable ASCII with no space at the end.
  pub service_data-CleanReport :
      (fl : OdidFloats F) (sd : Bytes) (r : OdidReport F)
      → CleanReport r
      → CleanReport (odid_parse_ble_service_data fl sd r).0
  unfolding odid_parse_ble_service_data odid_parse_messages
  service_data-CleanReport fl sd r c = elim (Bool-cases (ltb (length sd) 27)) [
    | inl h ↦ rw h c
    | inr h ↦ elim (Bool-cases (char_at sd 0 == 0x0d)) [
      | inr k ↦ rw (h, k) c
      | inl k ↦ elim (Bool-cases (ltb (length (drop 2 sd)) 25)) [
        | inl l ↦ rw (h, k, l) c
        | inr l ↦ rw (h, k, l) (all-CleanReport fl (messages_in (drop 2 sd)) r c)
      ]
    ]
  ]
