-- ===== src/Radar/Detector/Domain/Tables.antt =====
-- The patterns of the three domains, and the types of the fields that hold them.
use aic8800_linux_driver.Common.{
  ℕ, ◌*◌, ◌<◌, ◌≤◌, ◌≡◌, refl, ap, suc, Bool, true, false, ◌&&◌, none, some, List, [], ◌∷◌, length,
  All, arith, ltb, leb, leb→le, ltb→lt, u8_mod, u16_mod, false≢true, ◌⊎◌, inl, inr,
}
use aic8800_linux_driver.Radar.{
  RadarDetectorSpecs, Chain, riu, fcu, Region, unset, fcc, etsi, jp, etsi_radar_ref_types_v17,
  fcc_radar_ref_types, jp_radar_ref_types,
}
use aic8800_linux_driver.Radar.Detector.Domain.{
  RadarTypes, get_dfs_max_radar_types, get_dfs_domain_radar_types, dfs_domains, region_number,
}

-- The fields fit their types, the bounds are ordered, and the window is an int.
pub record Fits (rs : RadarDetectorSpecs) : Type 0 where
  pub widths : rs.width_min ≤ rs.width_max
  pub width : rs.width_max < u8_mod
  pub pris : rs.pri_min ≤ rs.pri_max
  pub pri : rs.pri_max < u16_mod
  pub tolerance : rs.max_pri_tolerance < rs.pri_min
  pub pulses : 0 < rs.ppb
  pub ppb : rs.ppb < u8_mod
  pub enough : 1 < rs.ppb_thresh
  pub thresh : rs.ppb_thresh ≤ rs.ppb
  pub window : rs.pri_max * rs.ppb * rs.num_pri < 0x8000_0000

both : (a b : Bool) → a && b ≡ true → (a ≡ true) × (b ≡ true)
both true true e = (refl, refl)
both true false e = absurd (false≢true e)
both false b e = absurd (false≢true e)

abbrev fits : RadarDetectorSpecs → Bool
fits rs =
    leb rs.width_min rs.width_max
    && (ltb rs.width_max u8_mod
        && (leb rs.pri_min rs.pri_max
            && (ltb rs.pri_max u16_mod
                && (ltb rs.max_pri_tolerance rs.pri_min
                    && (ltb 0 rs.ppb
                        && (ltb rs.ppb u8_mod
                            && (ltb 1 rs.ppb_thresh
                                && (leb rs.ppb_thresh rs.ppb
                                    && ltb (rs.pri_max * rs.ppb * rs.num_pri) 0x8000_0000))))))))

abbrev all_fit : List RadarDetectorSpecs → Bool
all_fit [] = true
all_fit (rs ∷ rest) = fits rs && all_fit rest

fits-Fits : (rs : RadarDetectorSpecs) → fits rs ≡ true → Fits rs
fits-Fits rs e =
    let (a, ra) = both (leb rs.width_min rs.width_max) _ e in
    let (b, rb) = both (ltb rs.width_max u8_mod) _ ra in
    let (c, rc) = both (leb rs.pri_min rs.pri_max) _ rb in
    let (d, rd) = both (ltb rs.pri_max u16_mod) _ rc in
    let (f, rf) = both (ltb rs.max_pri_tolerance rs.pri_min) _ rd in
    let (g, rg) = both (ltb 0 rs.ppb) _ rf in
    let (h, rh) = both (ltb rs.ppb u8_mod) _ rg in
    let (i, ri) = both (ltb 1 rs.ppb_thresh) _ rh in
    let (j, k) = both (leb rs.ppb_thresh rs.ppb) _ ri in
    record {
      widths = leb→le rs.width_min rs.width_max a;
      width = ltb→lt rs.width_max u8_mod b;
      pris = leb→le rs.pri_min rs.pri_max c;
      pri = ltb→lt rs.pri_max u16_mod d;
      tolerance = ltb→lt rs.max_pri_tolerance rs.pri_min f;
      pulses = ltb→lt 0 rs.ppb g;
      ppb = ltb→lt rs.ppb u8_mod h;
      enough = ltb→lt 1 rs.ppb_thresh i;
      thresh = leb→le rs.ppb_thresh rs.ppb j;
      window = ltb→lt (rs.pri_max * rs.ppb * rs.num_pri) 0x8000_0000 k;
    }

all_fit-All : (xs : List RadarDetectorSpecs) → all_fit xs ≡ true → All Fits xs
all_fit-All [] e = tt
all_fit-All (rs ∷ rest) e =
    let (a, b) = both (fits rs) (all_fit rest) e in (fits-Fits rs a, all_fit-All rest b)

-- The patterns of a domain.
pub domain_specs : Region → Chain → List RadarDetectorSpecs
domain_specs unset c = []
domain_specs etsi c = etsi_radar_ref_types_v17 c
domain_specs fcc c = fcc_radar_ref_types c
domain_specs jp c = jp_radar_ref_types

-- The patterns of every domain and chain have what the detectors rely on, and no domain has more patterns
-- than get_dfs_max_radar_types, the number of lists of detectors that are allocated.
pub domain_specs-Fits :
    (region : Region) (c : Chain)
    → All Fits (domain_specs region c) × (length (domain_specs region c) ≤ get_dfs_max_radar_types)
unfolding domain_specs get_dfs_max_radar_types dfs_domains etsi_radar_ref_types_v17
    fcc_radar_ref_types jp_radar_ref_types
domain_specs-Fits unset c = (tt, omega arith)
domain_specs-Fits etsi riu = (all_fit-All (etsi_radar_ref_types_v17 riu) refl, omega arith)
domain_specs-Fits etsi fcu = (all_fit-All (etsi_radar_ref_types_v17 fcu) refl, omega arith)
domain_specs-Fits fcc riu = (all_fit-All (fcc_radar_ref_types riu) refl, omega arith)
domain_specs-Fits fcc fcu = (all_fit-All (fcc_radar_ref_types fcu) refl, omega arith)
domain_specs-Fits jp c = (all_fit-All jp_radar_ref_types refl, omega arith)

apart : (n : ℕ) (g : Region) → region_number g ≡ suc n → ¬ (g ≡ unset)
apart n g e u = absurd (omega (arith, e, ap region_number u))

-- The search in the table of domains.
pub domain-found :
    (region : Region) (c : Chain)
    → ((region ≡ unset) × (get_dfs_domain_radar_types region ≡ none))
      ⊎ ((¬ (region ≡ unset))
          × (rt : RadarTypes) × (get_dfs_domain_radar_types region ≡ some rt)
          × (rt.specs c ≡ domain_specs region c))
unfolding domain_specs get_dfs_domain_radar_types dfs_domains
domain-found unset c = inl (refl, refl)
domain-found etsi c =
    inr (apart 1 etsi refl, record { region = etsi; specs = etsi_radar_ref_types_v17 }, refl, refl)
domain-found fcc c =
    inr (apart 0 fcc refl, record { region = fcc; specs = fcc_radar_ref_types }, refl, refl)
domain-found jp c =
    inr (apart 2 jp refl, record { region = jp; specs = λ c. jp_radar_ref_types }, refl, refl)
