-- ===== src/Config/Valid.antt =====
-- What a configuration that `Load` returns satisfies, and where the environment is ignored.
use gasha_sandbox.Common.{
  ℕ, zero, suc, ◌≤◌, ◌≡◌, ◌≢◌, ◌↔◌, refl, sym, ap, subst, Bool, true, false, ◌||◌, not, [], ◌∷◌,
  arith, if◌then◌else◌, is_nil, inl, inr, Bool-cases, ◌∙◌,
}
use gasha_sandbox.Common.Text.{Text, codes}
use gasha_sandbox.Common.Ints.{ℤ, pos, negsuc, is_negative, is_positive, less}
use gasha_sandbox.Config.Types.{Config, default_config}
use gasha_sandbox.Config.Load.{ConfigError, Result, ok, err, fix_rate_limit, validate}

-- `z` is a number that is not negative.
abbrev IsNat : ℤ → Type 0
IsNat z = (n : ℕ) × (z ≡ pos n)

-- The timeouts are positive and in order, the paths are there, the limits are in their ranges.
pub record IsValid (c : Config) : Type 0 where
  pub default_timeout : (n : ℕ) × (c.analysis.default_timeout_seconds ≡ pos (suc n))
  pub max_timeout :
      (m : ℕ) × (c.analysis.max_timeout_seconds ≡ pos m) × (suc (default_timeout.0) ≤ m)
  pub storage_path : c.analysis.storage_path ≢ []
  pub reports_dir : c.analysis.reports_dir ≢ []
  pub rules_dir : c.analysis.rules_dir ≢ []
  pub cpu_limit : (n : ℕ) × (c.isolation.cpu_limit_percent ≡ pos n) × (n ≤ 100)
  pub memory_limit : IsNat c.isolation.memory_limit_mb
  pub max_processes : IsNat c.isolation.max_processes
  pub pcap_size : IsNat c.network.pcap_max_size_mb
  pub rate_limit : (n : ℕ) × (c.api.rate_limit_per_min ≡ pos (suc n))

passed :
    (b : Bool) (e : ConfigError) (r : Result ConfigError) (d : Config)
    → (if b then err e else r) ≡ ok d
    → (b ≡ false) × (r ≡ ok d)
passed true e r d h = cc
passed false e r d h = (refl, h)

positive : (z : ℤ) → not (is_positive z) ≡ false → (n : ℕ) × (z ≡ pos (suc n))
positive (pos zero) h = ground arith
positive (pos (suc n)) h = (n, refl)
positive (negsuc n) h = ground arith

natural : (z : ℤ) → is_negative z ≡ false → IsNat z
natural (pos n) h = (n, refl)
natural (negsuc n) h = ground arith

at_least : (z : ℤ) (n : ℕ) → less z (pos n) ≡ false → (m : ℕ) × (z ≡ pos m) × (n ≤ m)
at_least (pos m) n h = (m, refl, ground arith)
at_least (negsuc m) n h = ground arith

percent : (z : ℤ) → (is_negative z || less (pos 100) z) ≡ false → (n : ℕ) × (z ≡ pos n) × (n ≤ 100)
percent (pos n) h = (n, refl, ground arith)
percent (negsuc n) h = ground arith

present : (s : Text) → is_nil s ≡ false → s ≢ []
present [] h = ground arith
present (c ∷ s) h = λ e. cc

fixed :
    (z : ℤ) → (b : Bool) → is_positive z ≡ b → (n : ℕ) × ((if b then z else pos 30) ≡ pos (suc n))
fixed z true h = positive z (rw h refl)
fixed z false h = (29, refl)

abbrev config_or : {E : Type 0} → Config → Result E → Config
config_or d (ok c) = c
config_or d (err e) = d

ok_cancel : {E : Type 0} (c d : Config) (r : Result E) → r ≡ ok d → config_or c r ≡ d
ok_cancel c d r h = ap (config_or c) h

-- The checks of `validate` in their order, all passed.
fix-IsValid :
    (c : Config)
    → not (is_positive c.analysis.default_timeout_seconds) ≡ false
    → less c.analysis.max_timeout_seconds c.analysis.default_timeout_seconds ≡ false
    → is_nil c.analysis.storage_path ≡ false
    → is_nil c.analysis.reports_dir ≡ false
    → is_nil c.analysis.rules_dir ≡ false
    → (is_negative c.isolation.cpu_limit_percent || less (pos 100) c.isolation.cpu_limit_percent)
      ≡ false
    → is_negative c.isolation.memory_limit_mb ≡ false
    → is_negative c.isolation.max_processes ≡ false
    → is_negative c.network.pcap_max_size_mb ≡ false
    → IsValid (fix_rate_limit c)
unfolding fix_rate_limit
fix-IsValid c h1 h2 h3 h4 h5 h6 h7 h8 h9 =
    let d = positive c.analysis.default_timeout_seconds h1 in
    record {
      default_timeout = d;
      max_timeout = at_least c.analysis.max_timeout_seconds (suc d.0) (rw d.1 at h2);
      storage_path = present _ h3;
      reports_dir = present _ h4;
      rules_dir = present _ h5;
      cpu_limit = percent _ h6;
      memory_limit = natural _ h7;
      max_processes = natural _ h8;
      pcap_size = natural _ h9;
      rate_limit = fixed c.api.rate_limit_per_min _ refl;
    }

pub validate-IsValid : (c d : Config) → validate c ≡ ok d → IsValid d × (d ≡ fix_rate_limit c)
unfolding validate
validate-IsValid c d h =
    let s1 = passed _ _ _ _ h in
    let s2 = passed _ _ _ _ s1.1 in
    let s3 = passed _ _ _ _ s2.1 in
    let s4 = passed _ _ _ _ s3.1 in
    let s5 = passed _ _ _ _ s4.1 in
    let s6 = passed _ _ _ _ s5.1 in
    let s7 = passed _ _ _ _ s6.1 in
    let s8 = passed _ _ _ _ s7.1 in
    let s9 = passed _ _ _ _ s8.1 in
    let e : fix_rate_limit c ≡ d = ok_cancel d d _ s9.1 in
    (subst IsValid e (fix-IsValid c s1.0 s2.0 s3.0 s4.0 s5.0 s6.0 s7.0 s8.0 s9.0), sym e)

fix_same : (c : Config) (n : ℕ) → c.api.rate_limit_per_min ≡ pos (suc n) → fix_rate_limit c ≡ c
unfolding fix_rate_limit
fix_same c n h =
    ap (λ r. record c { api = record c.api { rate_limit_per_min = r } })
      (kept c.api.rate_limit_per_min n h)
  where
    kept : (z : ℤ) (n : ℕ) → z ≡ pos (suc n) → (if is_positive z then z else pos 30) ≡ z
    kept z n h = rw h refl

stored : (s : Text) → s ≢ [] → is_nil s ≡ false
stored [] h = elim (h refl) [ ]
stored (c ∷ s) h = refl

in_order : (y z : ℤ) (m n : ℕ) → y ≡ pos m → z ≡ pos n → n ≤ m → less y z ≡ false
in_order y z m n e f h = rw (e, f) (ground arith)

in_percent : (z : ℤ) (n : ℕ) → z ≡ pos n → n ≤ 100 → (is_negative z || less (pos 100) z) ≡ false
in_percent z n e h = rw e (ground arith)

skip :
    (b : Bool) (e : ConfigError) (r s : Result ConfigError)
    → b ≡ false
    → r ≡ s
    → (if b then err e else r) ≡ s
skip b e r s h k = rw h k

validate-valid : (c : Config) → IsValid c → validate c ≡ ok c
unfolding validate
validate-valid c v =
    let d = v.default_timeout in
    let m = v.max_timeout in
    skip _ _ _ _ (ap (λ z. not (is_positive z)) d.1) (
      skip _ _ _ _ (in_order _ _ m.0 (suc d.0) m.1 d.1 m.2) (
        skip _ _ _ _ (stored _ v.storage_path) (
          skip _ _ _ _ (stored _ v.reports_dir) (
            skip _ _ _ _ (stored _ v.rules_dir) (
              skip _ _ _ _ (in_percent _ v.cpu_limit.0 v.cpu_limit.1 v.cpu_limit.2) (
                skip _ _ _ _ (ap is_negative v.memory_limit.1) (
                  skip _ _ _ _ (ap is_negative v.max_processes.1) (
                    skip _ _ _ _ (ap is_negative v.pcap_size.1)
                      (ap ok (fix_same c v.rate_limit.0 v.rate_limit.1))))))))))

fixed_twice :
    (z : ℤ)
    → (if is_positive (if is_positive z then z else pos 30)
        then if is_positive z then z else pos 30
        else pos 30)
      ≡ (if is_positive z then z else pos 30)
fixed_twice z = elim (Bool-cases (is_positive z)) [ inl e ↦ rw (e, e) refl | inr e ↦ rw e refl ]

-- The rate limit is the only setting that is not looked at before it is made positive.
validate-fix_rate_limit : (c : Config) → validate (fix_rate_limit c) ≡ validate c
unfolding validate fix_rate_limit
validate-fix_rate_limit c = rw (fixed_twice c.api.rate_limit_per_min) refl

pub validate-fixed : (c : Config) → IsValid (fix_rate_limit c) → validate c ≡ ok (fix_rate_limit c)
validate-fixed c v = sym (validate-fix_rate_limit c) ∙ validate-valid (fix_rate_limit c) v

-- `validate` returns a configuration as it is exactly when the timeouts are positive and in order,
-- the three paths are not empty, the limits are in their ranges and the rate limit is positive.
pub validate_iff : (c : Config) → (validate c ≡ ok c) ↔ IsValid c
validate_iff c = (λ h. (validate-IsValid c c h).0, validate-valid c)

-- The defaults are valid.
pub default_config-IsValid : IsValid default_config
unfolding default_config codes validate
default_config-IsValid = (validate_iff default_config).0 valid
  where
    valid : validate default_config ≡ ok default_config
    valid = refl
