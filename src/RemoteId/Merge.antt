-- ===== src/RemoteId/Merge.antt =====
-- Messages of several types are merged into one report.
use mathlib.Core.Option.{some-injective}
use flip_de_flock.Common.{
  Bool-cases, List, Option-cases, [], ap, arith, drop, false, inl, inr, length, ltb, refl, some,
  subst, sym, true, ◌&&◌, ◌/◌, ◌==◌, ◌||◌, ◌∙◌, ◌∷◌, ◌≡◌, ◌≢◌, ◌⊎◌,
}
use flip_de_flock.Common.Bytes.{Bytes, char_at, is_empty}
use flip_de_flock.Common.Int.{ℤ}
use flip_de_flock.RemoteId.{
  OdidFloats, OdidReport, copy_text, decode_latlon, is_zero_i32, messages_in,
  odid_parse_ble_service_data, odid_parse_messages, parse_all, parse_basic_id, parse_location,
  parse_one, parse_operator_id, parse_system, rd_i32,
}

-- A text is empty, or it is not.
empty-cases : (s : Bytes) → (is_empty s ≡ true) ⊎ ((is_empty s ≡ false) × (s ≢ []))
empty-cases [] = inl refl
empty-cases (c ∷ s) = inr (refl, (λ e. cc))

module _ {F : Type 0} (fl : OdidFloats F) where
  -- A position that was decoded.
  abbrev pub IsPlace : F → F → Type 0
  IsPlace la lo =
      (x : ℤ) × (y : ℤ) × (la ≡ fl.degrees x)
      × (lo ≡ fl.degrees y)
      × ((is_zero_i32 x && is_zero_i32 y) ≡ false)
      × (fl.lat_off la ≡ false)
      × (fl.lon_off lo ≡ false)

  abbrev pub PlaceStays : F → F → F → F → Type 0
  PlaceStays la lo la' lo' = ((la' ≡ la) × (lo' ≡ lo)) ⊎ IsPlace la' lo'

  -- What an advert can make of a report.
  pub record Latched (r r' : OdidReport F) : Type 0 where
    pub id_stays : (r.have_id ≡ false) ⊎ (r'.have_id ≡ true)
    pub location_stays : (r.have_location ≡ false) ⊎ (r'.have_location ≡ true)
    pub system_stays : (r.have_system ≡ false) ⊎ (r'.have_system ≡ true)
    pub operator_stays : (r.have_operator_id ≡ false) ⊎ (r'.have_operator_id ≡ true)
    pub serial_stays : ((r'.uas_id ≡ r.uas_id) × (r'.id_type ≡ r.id_type)) ⊎ (r'.uas_id ≢ [])
    pub operator_id_stays : (r'.operator_id ≡ r.operator_id) ⊎ (r'.operator_id ≢ [])
    pub place_stays : PlaceStays r.lat r.lon r'.lat r'.lon
    pub operator_place_stays : PlaceStays r.op_lat r.op_lon r'.op_lat r'.op_lon

  PlaceStays-trans :
      (a b c d e f : F) → PlaceStays a b c d → PlaceStays c d e f → PlaceStays a b e f
  PlaceStays-trans a b c d e f p (inr q) = inr q
  PlaceStays-trans a b c d e f (inl p) (inl q) = inl (q.0 ∙ p.0, q.1 ∙ p.1)
  PlaceStays-trans a b c d e f (inr (x, y, p, q, z, u, v)) (inl (s, t)) = inr (
    x,
    y,
    s ∙ p,
    t ∙ q,
    z,
    subst (λ k. fl.lat_off k ≡ false) (sym s) u,
    subst (λ k. fl.lon_off k ≡ false) (sym t) v,
  )

  Latched-refl : (r : OdidReport F) → Latched r r
  Latched-refl r = record {
    id_stays = ground arith;
    location_stays = ground arith;
    system_stays = ground arith;
    operator_stays = ground arith;
    serial_stays = inl (refl, refl);
    operator_id_stays = inl refl;
    place_stays = inl (refl, refl);
    operator_place_stays = inl (refl, refl);
  }

  Latched-trans : (a b c : OdidReport F) → Latched a b → Latched b c → Latched a c
  Latched-trans a b c p q = record {
    id_stays = ground (arith, p.id_stays, q.id_stays);
    location_stays = ground (arith, p.location_stays, q.location_stays);
    system_stays = ground (arith, p.system_stays, q.system_stays);
    operator_stays = ground (arith, p.operator_stays, q.operator_stays);
    serial_stays = ground (arith, p.serial_stays, q.serial_stays);
    operator_id_stays = ground (arith, p.operator_id_stays, q.operator_id_stays);
    place_stays = PlaceStays-trans a.lat a.lon b.lat b.lon c.lat c.lon p.place_stays q.place_stays;
    operator_place_stays =
        PlaceStays-trans a.op_lat a.op_lon b.op_lat b.op_lon c.op_lat c.op_lon
          p.operator_place_stays q.operator_place_stays;
  }

  decode_latlon-IsPlace :
      (x y : ℤ) {la lo : F} → decode_latlon fl x y ≡ some (la, lo) → IsPlace la lo
  unfolding decode_latlon
  decode_latlon-IsPlace x y {la} {lo} h = elim (Bool-cases (is_zero_i32 x && is_zero_i32 y)) [
    | inl zeros ↦ absurd (ground (arith, h, zeros))
    | inr given ↦ elim (Bool-cases (fl.lat_off (fl.degrees x) || fl.lon_off (fl.degrees y))) [
      | inl off ↦ absurd (ground (arith, h, given, off))
      | inr near ↦
          let e : ◌≡◌ {A = F × F} (fl.degrees x, fl.degrees y) (la, lo) =
            some-injective _ _ (rw (given, near) at h) in
          let a : fl.degrees x ≡ la = ap (λ (p : F × F). p.0) e in
          let b : fl.degrees y ≡ lo = ap (λ (p : F × F). p.1) e in
          (
            x,
            y,
            sym a,
            sym b,
            given,
            subst (λ k. fl.lat_off k ≡ false) a (ground (arith, near)),
            subst (λ k. fl.lon_off k ≡ false) b (ground (arith, near)),
          )
    ]
  ]

  basic_id-Latched : (m : Bytes) (r : OdidReport F) → Latched r (parse_basic_id m r)
  unfolding parse_basic_id
  basic_id-Latched m r = record {
    id_stays = ground arith;
    location_stays = ground arith;
    system_stays = ground arith;
    operator_stays = ground arith;
    serial_stays = elim (empty-cases (copy_text (drop 2 m) 20 21)) [
      | inl e ↦ inl (rw e refl, rw e refl)
      | inr e ↦ inr (rw e.0 e.1)
    ];
    operator_id_stays = inl refl;
    place_stays = inl (refl, refl);
    operator_place_stays = inl (refl, refl);
  }

  location-Latched : (m : Bytes) (r : OdidReport F) → Latched r (parse_location fl m r)
  unfolding parse_location
  location-Latched m r = record {
    id_stays = ground arith;
    location_stays = ground arith;
    system_stays = ground arith;
    operator_stays = ground arith;
    serial_stays = inl (refl, refl);
    operator_id_stays = inl refl;
    place_stays = elim (Option-cases (decode_latlon fl (rd_i32 m 4) (rd_i32 m 8))) [
      | inl e ↦ inl (rw e refl, rw e refl)
      | inr ((la, lo), e) ↦ inr (rw e (decode_latlon-IsPlace (rd_i32 m 4) (rd_i32 m 8) e))
    ];
    operator_place_stays = inl (refl, refl);
  }

  system-Latched : (m : Bytes) (r : OdidReport F) → Latched r (parse_system fl m r)
  unfolding parse_system
  system-Latched m r = elim (Option-cases (decode_latlon fl (rd_i32 m 2) (rd_i32 m 6))) [
    | inl e ↦ rw (e, parse_system) (Latched-refl r)
    | inr ((la, lo), e) ↦
        rw (e, parse_system)
          (record {
            id_stays = ground arith;
            location_stays = ground arith;
            system_stays = ground arith;
            operator_stays = ground arith;
            serial_stays = inl (refl, refl);
            operator_id_stays = inl refl;
            place_stays = inl (refl, refl);
            operator_place_stays = inr (decode_latlon-IsPlace (rd_i32 m 2) (rd_i32 m 6) e);
          })
  ]

  operator_id-Latched : (m : Bytes) (r : OdidReport F) → Latched r (parse_operator_id m r)
  unfolding parse_operator_id
  operator_id-Latched m r = record {
    id_stays = ground arith;
    location_stays = ground arith;
    system_stays = ground arith;
    operator_stays = ground arith;
    serial_stays = inl (refl, refl);
    operator_id_stays = elim (empty-cases (copy_text (drop 2 m) 20 21)) [
      | inl e ↦ inl (rw e refl)
      | inr e ↦ inr (rw e.0 e.1)
    ];
    place_stays = inl (refl, refl);
    operator_place_stays = inl (refl, refl);
  }

  parse_one-Latched : (m : Bytes) (r : OdidReport F) → Latched r (parse_one fl m r).0
  unfolding parse_one
  parse_one-Latched m r = elim (Bool-cases (char_at m 0 / 16 == 0)) [
    | inl h ↦ rw h (basic_id-Latched m r)
    | inr h ↦ elim (Bool-cases (char_at m 0 / 16 == 1)) [
      | inl k ↦ rw (h, k) (location-Latched m r)
      | inr k ↦ elim (Bool-cases (char_at m 0 / 16 == 4)) [
        | inl l ↦ rw (h, k, l) (system-Latched m r)
        | inr l ↦ elim (Bool-cases (char_at m 0 / 16 == 5)) [
          | inl o ↦ rw (h, k, l, o) (operator_id-Latched m r)
          | inr o ↦ rw (h, k, l, o) (Latched-refl r)
        ]
      ]
    ]
  ]

  parse_all-Latched : (ms : List Bytes) (r : OdidReport F) → Latched r (parse_all fl ms r).0
  unfolding parse_all
  parse_all-Latched [] r = Latched-refl r
  parse_all-Latched (m ∷ ms) r =
      Latched-trans r (parse_one fl m r).0 (parse_all fl ms (parse_one fl m r).0).0
        (parse_one-Latched m r) (parse_all-Latched ms (parse_one fl m r).0)

  -- What any advert, whatever its types and order, does to a report: a flag that is set stays set; the
  -- serial stays together with its type, or is replaced by one that is not empty; the operator's id
  -- stays or is replaced by one that is not empty; and the position of the aircraft, like that of the
  -- operator, stays as a pair or is replaced by a decoded pair, which is not the one of two zeros and
  -- lies in range.
  pub service_data-Latched :
      (sd : Bytes) (r : OdidReport F) → Latched r (odid_parse_ble_service_data fl sd r).0
  unfolding odid_parse_ble_service_data odid_parse_messages
  service_data-Latched sd r = elim (Bool-cases (ltb (length sd) 27)) [
    | inl h ↦ rw h (Latched-refl r)
    | inr h ↦ elim (Bool-cases (char_at sd 0 == 0x0d)) [
      | inr k ↦ rw (h, k) (Latched-refl r)
      | inl k ↦ elim (Bool-cases (ltb (length (drop 2 sd)) 25)) [
        | inl l ↦ rw (h, k, l) (Latched-refl r)
        | inr l ↦ rw (h, k, l) (parse_all-Latched (messages_in (drop 2 sd)) r)
      ]
    ]
  ]
