-- ===== src/Common/Mac.antt =====
-- `uint8_t mac[6]` and the three-byte prefixes that it is compared with.
use flip_de_flock.Common.{Bool, arith, refl, true, ℕ, ◌&&◌, ◌==◌, ◌↔◌, ◌≡◌}

pub record Mac : Type 0 where
  pub b0 : ℕ
  pub b1 : ℕ
  pub b2 : ℕ
  pub b3 : ℕ
  pub b4 : ℕ
  pub b5 : ℕ

pub record Oui : Type 0 where
  pub o0 : ℕ
  pub o1 : ℕ
  pub o2 : ℕ

abbrev pub oui : ℕ → ℕ → ℕ → Oui
oui a b c = record { o0 = a; o1 = b; o2 = c }

-- `memcmp(a, b, 6) == 0`
unfoldable pub mac_eq : Mac → Mac → Bool
mac_eq a b =
    a.b0 == b.b0
    && (a.b1 == b.b1 && (a.b2 == b.b2 && (a.b3 == b.b3 && (a.b4 == b.b4 && a.b5 == b.b5))))

pub mac_eq_iff : (a b : Mac) → (mac_eq a b ≡ true) ↔ (a ≡ b)
unfolding mac_eq
mac_eq_iff a b = ground arith

pub mac_eq_refl : (a : Mac) → mac_eq a a ≡ true
mac_eq_refl a = (mac_eq_iff a a).1 refl

-- `mac[0] == o[0] && mac[1] == o[1] && mac[2] == o[2]`
unfoldable pub has_oui : Mac → Oui → Bool
has_oui m o = m.b0 == o.o0 && (m.b1 == o.o1 && m.b2 == o.o2)

abbrev pub prefix_of : Mac → Oui
prefix_of m = oui m.b0 m.b1 m.b2

pub has_oui_iff : (m : Mac) (o : Oui) → (has_oui m o ≡ true) ↔ (prefix_of m ≡ o)
unfolding has_oui
has_oui_iff m o = ground arith
