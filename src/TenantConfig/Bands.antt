-- ===== src/TenantConfig/Bands.antt =====
-- The band of a total (src/dodeal_ai/units/structured_intelligence/config.py, `band_for`).
use do_deal_ai.Prelude.{ℕ, ◌≤◌, ◌<◌, ◌≡◌, sym, ◌∙◌, List, [], ◌∷◌, some, arith, leb, if◌then◌else◌}
use mathlib.Core.Option.{some-injective}
use do_deal_ai.Schemas.{Band, poor, fair, good, excellent, band_position}
use do_deal_ai.TenantConfig.{TenantConfig, band_for}

-- The shape of the boundaries that a configuration is held to: the four bands in order, bounds that
-- rise strictly, and 100 at the end.
pub record HasBands (bs : List (Band × ℕ)) : Type 0 where
  pub poor_upper : ℕ
  pub fair_upper : ℕ
  pub good_upper : ℕ
  pub listed :
      bs ≡ (poor, poor_upper) ∷ (fair, fair_upper) ∷ (good, good_upper) ∷ (excellent, 100) ∷ []
  pub poor_below : poor_upper < fair_upper
  pub fair_below : fair_upper < good_upper
  pub good_below : good_upper < 100

-- The bounds of the band, below and above, and none above for the last.
abbrev pub LiesIn : (p f g total : ℕ) → Band → Type 0
LiesIn p f g total poor = total ≤ p
LiesIn p f g total fair = (p < total) × (total ≤ f)
LiesIn p f g total good = (f < total) × (total ≤ g)
LiesIn p f g total excellent = g < total

band_at : (p f g total : ℕ) → Band
band_at p f g total =
    if leb total p
    then poor
    else if leb total f
    then fair
    else if leb total g
    then good
    else excellent

band_at-LiesIn : (p f g total : ℕ) → p < f → f < g → LiesIn p f g total (band_at p f g total)
unfolding band_at
band_at-LiesIn p f g total h k = ground arith

band_for-band_at :
    (config : TenantConfig) (h : HasBands config.band_boundaries) (total : ℕ)
    → band_for config total ≡ some (band_at h.poor_upper h.fair_upper h.good_upper total)
unfolding band_for band_at
band_for-band_at config h total = rw (h.listed) (ground arith)

band_at_mono :
    (p f g a b : ℕ) → a ≤ b → band_position (band_at p f g a) ≤ band_position (band_at p f g b)
unfolding band_at
band_at_mono p f g a b h = ground arith

-- Under boundaries of the shape that a configuration is held to, every total has a band, and it is
-- the band in whose interval the total lies.
pub band_for_lem :
    (config : TenantConfig) (h : HasBands config.band_boundaries) (total : ℕ)
    → (b : Band) × (band_for config total ≡ some b)
      × LiesIn h.poor_upper h.fair_upper h.good_upper total b
band_for_lem config h total = (
  band_at h.poor_upper h.fair_upper h.good_upper total,
  band_for-band_at config h total,
  band_at-LiesIn h.poor_upper h.fair_upper h.good_upper total h.poor_below h.fair_below,
)

-- Under such boundaries a larger total never has a lower band.
pub band_for_mono :
    (config : TenantConfig) (a b : ℕ) (x y : Band)
    → HasBands config.band_boundaries
    → a ≤ b
    → band_for config a ≡ some x
    → band_for config b ≡ some y
    → band_position x ≤ band_position y
band_for_mono config a b x y h l e e' =
    let p : x ≡ band_at h.poor_upper h.fair_upper h.good_upper a =
      some-injective _ _ (sym e ∙ band_for-band_at config h a) in
    let q : y ≡ band_at h.poor_upper h.fair_upper h.good_upper b =
      some-injective _ _ (sym e' ∙ band_for-band_at config h b) in
    rw (p, q) (band_at_mono h.poor_upper h.fair_upper h.good_upper a b l)
