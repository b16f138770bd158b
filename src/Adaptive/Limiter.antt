-- ===== src/Adaptive/Limiter.antt =====
-- adaptive/adaptive.go. The methods that adapt the limit (aimdOnSuccess, vegasOnSuccess,
-- gradient2OnSuccess, onFailure) are given as they run when no other goroutine comes between their
-- atomics; tryAcquire is given pass by pass, with what it has loaded.
use fortify.Base.{
  Bool, not, ◌&&◌, ◌||◌, if◌then◌else◌, Option, none, some, List, [], ◌∷◌, Float64, ℤ, pos, negsuc,
  is_pos, ltb_ℤ, pos_part, add_int64, int32, sub_int64, mul_int64, quot,
}
use fortify.Ferrors.{Error}
use fortify.Adaptive.Config.{
  algorithm_aimd, algorithm_vegas, algorithm_gradient2, other, Config, set_defaults,
}

-- limit, inFlight and successes are int32, the others int64.
-- `changes` holds the arguments of the calls of OnLimitChange, newest first.
pub record Limiter ⦃fl : Float64⦄ : Type 0 where
  pub config : Config
  pub limit : ℤ
  pub in_flight : ℤ
  pub successes : ℤ
  pub min_rtt : ℤ
  pub ema_rtt : ℤ
  pub rtt_samples : ℤ
  pub changes : List (ℤ × ℤ)

-- How a pass of the loop of tryAcquire ends: it returns false or true, or goes on.
pub data Tried : Type 0 where
  refused acquired lost : Tried

-- x + 1 and x - 1 on int32.
unfoldable pub inc32 : ℤ → ℤ
inc32 x = int32 (add_int64 x (pos 1))

unfoldable pub dec32 : ℤ → ℤ
dec32 x = int32 (add_int64 x (negsuc 0))

-- x == 0
unfoldable pub is_zero : ℤ → Bool
is_zero x = not (is_pos x) && not (ltb_ℤ x (pos 0))

module _ ⦃fl : Float64⦄ where
  unfoldable pub new : Config → Limiter
  new config =
      let c = set_defaults config in
      record {
        config = c;
        limit = int32 c.initial_limit;
        in_flight = pos 0;
        successes = pos 0;
        min_rtt = pos 0;
        ema_rtt = pos 0;
        rtt_samples = pos 0;
        changes = [];
      }

  -- One pass of the loop of tryAcquire. `cur` and `lim` are what it has loaded before; the limiter is the
  -- one that the swap meets.
  unfoldable pub try_acquire : ℤ → ℤ → Limiter → Limiter × Tried
  unfolding inc32
  try_acquire cur lim l =
      if not (ltb_ℤ cur lim)
      then (l, refused)
      else if not (ltb_ℤ cur l.in_flight) && not (ltb_ℤ l.in_flight cur)
      then (record l { in_flight = inc32 cur }, acquired)
      else (l, lost)

  -- The deferred `l.inFlight.Add(-1)`.
  unfoldable pub release : Limiter → Limiter
  unfolding dec32
  release l = record l { in_flight = dec32 l.in_flight }

  -- A swap of the limit, and notify.
  unfoldable pub set_limit : ℤ → Limiter → Limiter
  set_limit next l = record l {
    limit = next;
    changes = if l.config.on_limit_change then (l.limit, next) ∷ l.changes else l.changes;
  }

  unfoldable pub aimd_on_success : Limiter → Limiter
  unfolding inc32 set_limit
  aimd_on_success l =
      let s = inc32 l.successes in
      if ltb_ℤ s (int32 l.config.success_threshold)
      then record l { successes = s }
      else let cleared = record l { successes = pos 0 } in
        if ltb_ℤ l.limit (int32 l.config.max_limit)
        then set_limit (inc32 l.limit) cleared
        else cleared

  -- The loop that lowers minRTT to a sample.
  unfoldable pub update_min : ℤ → ℤ → ℤ
  unfolding is_zero
  update_min cur rtt = if not (is_zero cur) && not (ltb_ℤ rtt cur) then cur else rtt

  unfoldable pub vegas_ema : ℤ → ℤ → ℤ
  unfolding is_zero
  vegas_ema cur rtt =
      if is_zero cur then rtt else quot (add_int64 (mul_int64 cur (pos 7)) rtt) (pos 8)

  -- The step of the limit once enough samples are in.
  unfoldable pub vegas_adjust : Limiter → Limiter
  unfolding is_zero inc32 dec32 set_limit
  vegas_adjust l =
      let queue = int32 (quot (mul_int64 l.limit (sub_int64 l.ema_rtt l.min_rtt)) l.ema_rtt) in
      if is_zero l.min_rtt || is_zero l.ema_rtt
      then l
      else if ltb_ℤ queue (int32 l.config.vegas_alpha)
      then if ltb_ℤ l.limit (int32 l.config.max_limit) then set_limit (inc32 l.limit) l else l
      else if ltb_ℤ (int32 l.config.vegas_beta) queue
      then if ltb_ℤ (int32 l.config.min_limit) l.limit then set_limit (dec32 l.limit) l else l
      else l

  unfoldable pub vegas_on_success : ℤ → Limiter → Limiter
  unfolding update_min vegas_ema vegas_adjust
  vegas_on_success rtt l =
      let sampled = record l {
        min_rtt = update_min l.min_rtt rtt;
        ema_rtt = vegas_ema l.ema_rtt rtt;
        rtt_samples = add_int64 l.rtt_samples (pos 1);
      } in
      if not (is_pos rtt)
      then l
      else if ltb_ℤ sampled.rtt_samples l.config.vegas_min_samples
      then sampled
      else vegas_adjust sampled

  -- float64(cur)*(1-alpha) + float64(rtt)*alpha; the times are not negative.
  unfoldable pub gradient_ema : fl.F → ℤ → ℤ → ℤ
  unfolding is_zero
  gradient_ema alpha cur rtt =
      if is_zero cur
      then rtt
      else pos (
          fl.trunc (
            fl.fadd (fl.fmul (fl.of_nat (pos_part cur)) (fl.fsub (fl.of_nat 1) alpha))
              (fl.fmul (fl.of_nat (pos_part rtt)) alpha)))

  -- minRTT / emaRTT, clamped to [0.5, 1].
  unfoldable pub gradient : ℤ → ℤ → fl.F
  gradient min_rtt ema_rtt =
      let g = fl.fdiv (fl.of_nat (pos_part min_rtt)) (fl.of_nat (pos_part ema_rtt)) in
      let g' = if fl.fltb g (fl.literal 1 2) then fl.literal 1 2 else g in
      if fl.fltb (fl.literal 1 1) g' then fl.literal 1 1 else g'

  -- The target before it is clamped; its terms are not negative, so floor cuts the fraction off.
  unfoldable pub gradient_target : Limiter → ℤ
  unfolding gradient
  gradient_target l =
      let cur = fl.of_nat (pos_part l.limit) in
      int32 (pos (fl.trunc (fl.fadd (fl.fmul cur (gradient l.min_rtt l.ema_rtt)) (fl.fsqrt cur))))

  unfoldable pub gradient_adjust : Limiter → Limiter
  unfolding is_zero set_limit
  gradient_adjust l =
      let target = gradient_target l in
      let lo = int32 l.config.min_limit in
      let hi = int32 l.config.max_limit in
      let raised = if ltb_ℤ target lo then lo else target in
      let next = if ltb_ℤ hi raised then hi else raised in
      if is_zero l.min_rtt || is_zero l.ema_rtt
      then l
      else if ltb_ℤ next l.limit || ltb_ℤ l.limit next
      then set_limit next l
      else l

  unfoldable pub gradient2_on_success : ℤ → Limiter → Limiter
  unfolding update_min gradient_ema gradient_adjust
  gradient2_on_success rtt l =
      let sampled = record l {
        min_rtt = update_min l.min_rtt rtt;
        ema_rtt = gradient_ema l.config.gradient_smoothing l.ema_rtt rtt;
        rtt_samples = add_int64 l.rtt_samples (pos 1);
      } in
      if not (is_pos rtt)
      then l
      else if ltb_ℤ sampled.rtt_samples l.config.gradient_min_samples
      then sampled
      else gradient_adjust sampled

  unfoldable pub on_failure : Limiter → Limiter
  unfolding set_limit
  on_failure l =
      let half = quot l.limit (pos 2) in
      let lo = int32 l.config.min_limit in
      let next = if ltb_ℤ half lo then lo else half in
      let cleared = record l { successes = pos 0 } in
      if ltb_ℤ next l.limit || ltb_ℤ l.limit next then set_limit next cleared else cleared

  -- What Execute does once fn has returned, before the deferred release. `rtt` is the time that fn
  -- took.
  unfoldable pub complete : ℤ → Option Error → Limiter → Limiter
  complete rtt (some e) l = on_failure l
  complete rtt none l = elim l.config.algorithm [
    | algorithm_vegas ↦ vegas_on_success rtt l
    | algorithm_gradient2 ↦ gradient2_on_success rtt l
    | algorithm_aimd ↦ aimd_on_success l
    | other ↦ aimd_on_success l
  ]
