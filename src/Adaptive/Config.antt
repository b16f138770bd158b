-- ===== src/Adaptive/Config.antt =====
-- adaptive/config.go.
use fortify.Base.{Bool, ◌||◌, if◌then◌else◌, Float64, ℤ, pos, is_pos, ltb_ℤ, mul_int64}

-- `other` stands for the values that are none of the three constants.
pub data Algorithm : Type 0 where
  algorithm_aimd algorithm_vegas algorithm_gradient2 other : Algorithm

module _ ⦃fl : Float64⦄ where
  -- `on_limit_change` says whether the callback is set; the Logger is left out.
  pub record Config : Type 0 where
    pub on_limit_change : Bool
    pub algorithm : Algorithm
    pub initial_limit : ℤ
    pub min_limit : ℤ
    pub max_limit : ℤ
    pub success_threshold : ℤ
    pub vegas_alpha : ℤ
    pub vegas_beta : ℤ
    pub vegas_min_samples : ℤ
    pub gradient_min_samples : ℤ
    pub gradient_smoothing : fl.F

  -- The bounds and the initial limit, in the order of setDefaults.
  unfoldable pub default_limits : Config → Config
  default_limits c =
      let lo = if is_pos c.min_limit then c.min_limit else pos 1 in
      let hi = if is_pos c.max_limit then c.max_limit else pos 200 in
      let hi' = if ltb_ℤ hi lo then lo else hi in
      let start = if is_pos c.initial_limit then c.initial_limit else pos 10 in
      let start' = if ltb_ℤ start lo then lo else start in
      record c {
        min_limit = lo;
        max_limit = hi';
        initial_limit = if ltb_ℤ hi' start' then hi' else start';
      }

  -- VegasBeta after its two tests.
  unfoldable pub default_beta : ℤ → ℤ → ℤ
  default_beta alpha beta =
      let beta' = if ltb_ℤ alpha beta then beta else mul_int64 alpha (pos 2) in
      if is_pos beta' then beta' else pos 6

  unfoldable pub set_defaults : Config → Config
  unfolding default_limits default_beta
  set_defaults c =
      let d = default_limits c in
      let alpha = if is_pos d.vegas_alpha then d.vegas_alpha else pos 3 in
      record d {
        success_threshold = if is_pos d.success_threshold then d.success_threshold else pos 10;
        vegas_alpha = alpha;
        vegas_beta = default_beta alpha d.vegas_beta;
        vegas_min_samples = if is_pos d.vegas_min_samples then d.vegas_min_samples else pos 10;
        gradient_min_samples =
            if is_pos d.gradient_min_samples then d.gradient_min_samples else pos 10;
        gradient_smoothing =
            if fl.fleb d.gradient_smoothing (fl.literal 0 1)
              || fl.fltb (fl.literal 1 1) d.gradient_smoothing
            then fl.literal 1 5
            else d.gradient_smoothing;
      }
