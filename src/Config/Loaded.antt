-- ===== src/Config/Loaded.antt =====
-- What `Load` returns, and what it takes from the environment.
use gasha_sandbox.Common.{
  sym, ◌↔◌, ◌⊎◌, inl, inr, is_nil, if◌then◌else◌, ◌≡◌, ◌≢◌, refl, ap, subst, ◌∙◌, Option, none,
  some, [], ◌∷◌,
}
use gasha_sandbox.Common.Text.{Text, codes}
use gasha_sandbox.Config.Types.{Config, default_config}
use gasha_sandbox.Config.Load.{
  FileResult, contents, not_exist, unreadable, LoadError, Result, ok, err, fix_rate_limit, validate,
  with_environment, load, load_file, checked, wrapped,
}
use gasha_sandbox.Common.Ints.{pos, is_positive}
use gasha_sandbox.Config.Valid.{IsValid, validate-IsValid, validate-fixed, default_config-IsValid}
use gasha_sandbox.Api.Auth.{Handler, Request, api_key_auth}

abbrev config_or : Config → Result LoadError → Config
config_or d (ok c) = c
config_or d (err e) = d

abbrev loaded : Config → Result LoadError
loaded c = ok c

config_cancel : {c d : Config} → loaded c ≡ loaded d → c ≡ d
config_cancel {d = d} h = ap (config_or d) h

opened : (next : Handler) (r : Request) → api_key_auth default_config.api.api_key next r ≡ next r
unfolding default_config codes api_key_auth
opened next r = refl

-- A value of the environment in place of a setting, where it is not empty.
abbrev pub settled_text : Text → Text → Text
settled_text [] old = old
settled_text (c ∷ v) old = c ∷ v

-- As a specification: the configuration that a file and the environment ask for.
abbrev pub settled : (Text → Text) → Config → Config
settled getenv c = record c {
  analysis = record c.analysis {
    storage_path = settled_text (getenv (codes "LEMAS_DB_PATH")) c.analysis.storage_path;
    reports_dir = settled_text (getenv (codes "LEMAS_REPORTS_DIR")) c.analysis.reports_dir;
    rules_dir = settled_text (getenv (codes "LEMAS_RULES_DIR")) c.analysis.rules_dir;
  };
  api = record {
    listen_addr = settled_text (getenv (codes "LEMAS_LISTEN_ADDR")) c.api.listen_addr;
    api_key = settled_text (getenv (codes "LEMAS_API_KEY")) c.api.api_key;
    rate_limit_per_min =
        if is_positive c.api.rate_limit_per_min then c.api.rate_limit_per_min else pos 30;
  };
}

settled_text_lem : (v old : Text) → (if is_nil v then old else v) ≡ settled_text v old
settled_text_lem [] old = refl
settled_text_lem (c ∷ v) old = refl

settled_lem :
    (getenv : Text → Text) (c : Config)
    → fix_rate_limit (with_environment getenv c) ≡ settled getenv c
unfolding with_environment fix_rate_limit
settled_lem getenv c =
    rw
      (
        settled_text_lem (getenv (codes "LEMAS_DB_PATH")) c.analysis.storage_path,
        settled_text_lem (getenv (codes "LEMAS_REPORTS_DIR")) c.analysis.reports_dir,
        settled_text_lem (getenv (codes "LEMAS_RULES_DIR")) c.analysis.rules_dir,
        settled_text_lem (getenv (codes "LEMAS_LISTEN_ADDR")) c.api.listen_addr,
        settled_text_lem (getenv (codes "LEMAS_API_KEY")) c.api.api_key,
      )
      refl

-- Any reader of files, decoder and environment.
module _ (read_file : Text → FileResult) (unmarshal : Text → Config → Option Config)
    (getenv : Text → Text) where
  wrapped-IsValid :
      (c d : Config) → wrapped (validate c) ≡ ok d → IsValid d × (d ≡ fix_rate_limit c)
  wrapped-IsValid c d h = go (validate c) refl h
    where
      go : (r : Result _) → validate c ≡ r → wrapped r ≡ ok d → IsValid d × (d ≡ fix_rate_limit c)
      go (ok b) e h = validate-IsValid c d (e ∙ cc)
      go (err b) e h = cc

  checked-IsValid : (o : Option Config) (d : Config) → checked getenv o ≡ ok d → IsValid d
  checked-IsValid none d h = cc
  checked-IsValid (some c) d h = (wrapped-IsValid (with_environment getenv c) d h).0

  load_file-IsValid :
      (f : FileResult) (d : Config) → load_file unmarshal getenv f ≡ ok d → IsValid d
  load_file-IsValid (contents bytes) d h = checked-IsValid (unmarshal bytes default_config) d h
  load_file-IsValid not_exist d h = subst IsValid (config_cancel h) default_config-IsValid
  load_file-IsValid unreadable d h = cc

  -- Every configuration that `Load` returns is valid, whatever the file, the decoder and the
  -- environment give.
  pub load-IsValid :
      (path : Text) (d : Config) → load read_file unmarshal getenv path ≡ ok d → IsValid d
  unfolding load
  load-IsValid [] d h = subst IsValid (config_cancel h) default_config-IsValid
  load-IsValid (c ∷ cs) d h = load_file-IsValid (read_file (c ∷ cs)) d h

  load_file-environment :
      (c d : Config) → (checked getenv (some c) ≡ ok d) ↔ (IsValid d × (d ≡ settled getenv c))
  load_file-environment c d = (
    λ h.
        let w = wrapped-IsValid (with_environment getenv c) d h in
        (w.0, w.1 ∙ settled_lem getenv c),
    λ h.
        let e : d ≡ fix_rate_limit (with_environment getenv c) = h.1 ∙ sym (settled_lem getenv c) in
        ap wrapped (validate-fixed (with_environment getenv c) (subst IsValid e h.0))
        ∙ ap loaded (sym e),
  )

  -- From a file that is there and decodes to `c`, `Load` returns a configuration exactly when it is
  -- valid and is `c` with the five variables of the environment, where they are not empty, in place
  -- of their settings, and a rate limit that is not positive replaced by 30.
  pub load-environment :
      (path bytes : Text) (c d : Config)
      → path ≢ []
      → read_file path ≡ contents bytes
      → unmarshal bytes default_config ≡ some c
      → (load read_file unmarshal getenv path ≡ ok d) ↔ (IsValid d × (d ≡ settled getenv c))
  unfolding load
  load-environment [] bytes c d n r u = elim (n refl) [ ]
  load-environment (x ∷ xs) bytes c d n r u = rw (r, u) (load_file-environment c d)

  -- With no path, or no file at the path, `Load` returns the defaults whatever the environment holds,
  -- so the key in `LEMAS_API_KEY` is not read: behind the key of the configuration that is returned,
  -- every request is passed on to its handler.
  pub load-open :
      (path : Text)
      → (path ≡ []) ⊎ (read_file path ≡ not_exist)
      → (load read_file unmarshal getenv path ≡ ok default_config)
        × ((next : Handler) (r : Request) → api_key_auth default_config.api.api_key next r ≡ next r)
  unfolding load
  load-open [] h = (refl, λ next r. opened next r)
  load-open (c ∷ cs) (inl e) = cc
  load-open (c ∷ cs) (inr e) = (rw e refl, λ next r. opened next r)
