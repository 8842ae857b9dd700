-- ===== src/Time/Order.antt =====
-- The order of the stored texts against the order of the times.
use opencode_proxy.Base.{
  ℕ, ◌+◌, ◌*◌, ◌/◌, ◌<◌, ◌≡◌, ◌≢◌, refl, true, false, [], ◌∷◌, ◌%◌, arith, leb,
}
use opencode_proxy.Text.{Text}
use opencode_proxy.Time.{Time, text_leb, fraction_text, stored_leb, nanos_per_second}

text_leb_total : (s t : Text) → text_leb s t ≡ false → text_leb t s ≡ true
unfolding text_leb
text_leb_total [] t h = cc
text_leb_total (c ∷ s) [] h = refl
text_leb_total (c ∷ s) (d ∷ t) h = ground (arith, text_leb_total s t)

text_leb_trans : (s t u : Text) → text_leb s t ≡ true → text_leb t u ≡ true → text_leb s u ≡ true
unfolding text_leb
text_leb_trans [] t u h k = refl
text_leb_trans (c ∷ s) [] u h k = cc
text_leb_trans (c ∷ s) (d ∷ t) [] h k = cc
text_leb_trans (c ∷ s) (d ∷ t) (e ∷ u) h k = ground (arith, text_leb_trans s t u)

pub stored_leb_total : (a b : Time) → stored_leb a b ≡ false → stored_leb b a ≡ true
unfolding stored_leb
stored_leb_total a b h = ground (
  arith,
  text_leb_total (fraction_text (a % nanos_per_second)) (fraction_text (b % nanos_per_second)),
)

pub stored_leb_trans :
    (a b c : Time) → stored_leb a b ≡ true → stored_leb b c ≡ true → stored_leb a c ≡ true
unfolding stored_leb
stored_leb_trans a b c h k = ground (
  arith,
  text_leb_trans (fraction_text (a % nanos_per_second)) (fraction_text (b % nanos_per_second))
      (fraction_text (c % nanos_per_second)),
)

-- Times in different seconds compare as their stored texts do.
pub stored_leb-leb :
    (a b : Time) → a / nanos_per_second ≢ b / nanos_per_second → stored_leb a b ≡ leb a b
unfolding stored_leb
stored_leb-leb a b h = ground arith

-- A time and any later one within the same second, of which only the first is a whole second, stand
-- the wrong way round as texts.
pub whole_second_misordered :
    (s n : ℕ)
    → 0 < n
    → n < nanos_per_second
    → (s * nanos_per_second < s * nanos_per_second + n)
      × (stored_leb (s * nanos_per_second) (s * nanos_per_second + n) ≡ false)
unfolding stored_leb
whole_second_misordered s n h k = (omega arith, ground arith)

pub stored_leb-half_second : stored_leb (5 * nanos_per_second) (5 * nanos_per_second + 5) ≡ false
unfolding stored_leb
stored_leb-half_second = refl
