-- ===== src/Monitor/Correlation/Beacon.antt =====
-- When a connection is reported, by the paths that the process has written.
use gasha_sandbox.Common.{
  ℕ, ◌≡◌, refl, sym, ap, ◌∙◌, inl, inr, Bool, true, false, ◌||◌, List, [], ◌∷◌, ◌++◌, arith,
  if◌then◌else◌, any, Bool-cases, not, is_nil,
}
use gasha_sandbox.Common.Text.{Text, codes, text_eq, text_eq→≡, lower, has_prefix, contains}
use gasha_sandbox.Monitor.Events.{network_connect, Event}
use gasha_sandbox.Monitor.Correlation.State.{Engine, Alert}
use gasha_sandbox.Monitor.Correlation.Persistence.{
  ObjectType, registry, file, is_persistent_item, first_item, aftermath_item,
}
use gasha_sandbox.Monitor.Correlation.Dispatch.{
  process_event, handle, on_network_connect, build_dest_string,
}
use gasha_sandbox.Monitor.Correlation.Chain.{sent}
use gasha_sandbox.Monitor.Correlation.Aftermath.{
  beacon_alert, has_persisted, connect_alerts, first_item-any,
}

-- As a specification: the marks, in lower case, of the paths that count.
abbrev pub registry_marks : List Text
registry_marks = codes "\\run" ∷ codes "\\currentversion\\services" ∷ []

abbrev pub file_marks : List Text
file_marks =
    codes "\\startup\\"
    ∷ codes "/etc/cron"
    ∷ codes "/etc/systemd/system"
    ∷ codes "/.bashrc"
    ∷ codes "/.profile"
    ∷ []

-- The paths that hold one of the marks, in their order.
abbrev pub marked : List Text → List Text → List Text
marked marks [] = []
marked marks (p ∷ ps) =
    let rest = marked marks ps in if any (contains (lower p)) marks then p ∷ rest else rest

-- What the process has written of these: the registry first.
abbrev pub marked_writes : ℕ → Engine → List Text
marked_writes pid ce =
    marked registry_marks (ce.reg_writes pid) ++ marked file_marks (ce.file_writes pid)

-- The alerts after a connection to `dest`, by the marked paths.
abbrev pub beaconed : Event → Text → List Text → Engine → List Alert
beaconed ev dest [] ce = ce.alerts
beaconed ev [] (item ∷ items) ce = ce.alerts
beaconed ev (c ∷ dest) (item ∷ items) ce =
    sent (beacon_alert ce.job_id ev.pid (c ∷ dest) item ev.timestamp) ce

has_prefix-append : (s a b : Text) → has_prefix s (a ++ b) ≡ true → has_prefix s a ≡ true
unfolding has_prefix
has_prefix-append s [] b h = refl
has_prefix-append [] (p ∷ a) b h = cc
has_prefix-append (c ∷ s) (p ∷ a) b h = ground (arith, has_prefix-append s a b)

contains-append : (s a b : Text) → contains s (a ++ b) ≡ true → contains s a ≡ true
unfolding contains
contains-append [] a b h = has_prefix-append [] a b h
contains-append (c ∷ s) a b h = ground (arith, has_prefix-append (c ∷ s) a b, contains-append s a b)

abbrev marks : ObjectType → List Text
marks registry = registry_marks
marks file = file_marks

runonce : codes "\\run" ++ codes "once" ≡ codes "\\runonce"
unfolding codes
runonce = refl

run_of_runonce :
    (s : Text) → contains s (codes "\\runonce") ≡ true → contains s (codes "\\run") ≡ true
run_of_runonce s h = contains-append s (codes "\\run") (codes "once") (ap (contains s) runonce ∙ h)

is_persistent_item-marks :
    (kind : ObjectType) (p : Text)
    → is_persistent_item kind p ≡ any (contains (lower p)) (marks kind)
unfolding is_persistent_item
is_persistent_item-marks registry p = ground (arith, run_of_runonce (lower p))
is_persistent_item-marks file p = ground arith

abbrev head_or_nil : List Text → Text
head_or_nil [] = []
head_or_nil (p ∷ ps) = p

first_item-marked :
    (kind : ObjectType) (l : List Text) → first_item kind l ≡ head_or_nil (marked (marks kind) l)
unfolding first_item
first_item-marked kind [] = refl
first_item-marked kind (p ∷ l) = elim (Bool-cases (is_persistent_item kind p)) [
  | inl e ↦ rw (sym (is_persistent_item-marks kind p), e) refl
  | inr e ↦ rw (sym (is_persistent_item-marks kind p), e) (first_item-marked kind l)
]

any-marked :
    (kind : ObjectType) (l : List Text)
    → any (is_persistent_item kind) l ≡ not (is_nil (marked (marks kind) l))
any-marked kind [] = refl
any-marked kind (p ∷ l) = elim (Bool-cases (is_persistent_item kind p)) [
  | inl e ↦ rw (sym (is_persistent_item-marks kind p), e) refl
  | inr e ↦ rw (sym (is_persistent_item-marks kind p), e) (any-marked kind l)
]

head-append :
    (xs ys : List Text)
    → (if is_nil xs then head_or_nil ys else head_or_nil xs) ≡ head_or_nil (xs ++ ys)
head-append [] ys = refl
head-append (x ∷ xs) ys = refl

double_negation : (b : Bool) → not (not b) ≡ b
double_negation b = ground arith

aftermath_item-marked :
    (pid : ℕ) (ce : Engine) → aftermath_item pid ce ≡ head_or_nil (marked_writes pid ce)
unfolding aftermath_item
aftermath_item-marked pid ce =
    let empty : text_eq (first_item registry (ce.reg_writes pid)) []
        ≡ is_nil (marked registry_marks (ce.reg_writes pid)) =
      first_item-any registry (ce.reg_writes pid)
      ∙ ap not (any-marked registry (ce.reg_writes pid))
      ∙ double_negation _ in
    rw
      (
        empty,
        first_item-marked registry (ce.reg_writes pid),
        first_item-marked file (ce.file_writes pid),
      )
      (head-append (marked registry_marks (ce.reg_writes pid)) _)

is_nil-append : (xs ys : List Text) → (not (is_nil xs) || not (is_nil ys)) ≡ not (is_nil (xs ++ ys))
is_nil-append [] ys = refl
is_nil-append (x ∷ xs) ys = refl

has_persisted-marked :
    (pid : ℕ) (ce : Engine) → has_persisted pid ce ≡ not (is_nil (marked_writes pid ce))
has_persisted-marked pid ce =
    rw (any-marked registry (ce.reg_writes pid), any-marked file (ce.file_writes pid))
      (is_nil-append (marked registry_marks (ce.reg_writes pid)) _)

beaconed_lem :
    (ev : Event) (dest : Text) (items : List Text) (ce : Engine)
    → text_eq dest [] ≡ false
    → (if not (is_nil items)
        then sent (beacon_alert ce.job_id ev.pid dest (head_or_nil items) ev.timestamp) ce
        else ce.alerts)
      ≡ beaconed ev dest items ce
unfolding text_eq
beaconed_lem ev dest [] ce h = refl
beaconed_lem ev [] (item ∷ items) ce h = cc
beaconed_lem ev (c ∷ dest) (item ∷ items) ce h = refl

nowhere : (ev : Event) (items : List Text) (ce : Engine) → ce.alerts ≡ beaconed ev [] items ce
nowhere ev [] ce = refl
nowhere ev (item ∷ items) ce = refl

unconnected :
    (ev : Event) (ce : Engine)
    → ev.event_type ≡ network_connect
    → text_eq (build_dest_string ev) [] ≡ true
    → (process_event ev ce).alerts ≡ ce.alerts
unfolding process_event handle on_network_connect
unconnected ev ce kind dest = ap (λ k. (handle k ev ce).alerts) kind ∙ (rw dest refl)

-- A connection raises the beaconing alert, and nothing else, exactly when it has a destination and the
-- process has written a registry path with "\run" or "\currentversion\services" in it, or a file path
-- with "\startup\", "/etc/cron", "/etc/systemd/system", "/.bashrc" or "/.profile", in any case. The
-- alert names the first such path, those of the registry before those of files.
pub connect_beacons :
    (ev : Event) (ce : Engine)
    → ev.event_type ≡ network_connect
    → (process_event ev ce).alerts ≡ beaconed ev (build_dest_string ev) (marked_writes ev.pid ce) ce
connect_beacons ev ce kind = elim (Bool-cases (text_eq (build_dest_string ev) [])) [
  | inl e ↦
      unconnected ev ce kind e
      ∙ (rw (text_eq→≡ (build_dest_string ev) [] e) (nowhere ev (marked_writes ev.pid ce) ce))
  | inr e ↦
      connect_alerts ev ce kind e
      ∙ (rw (has_persisted-marked ev.pid ce, aftermath_item-marked ev.pid ce)
          (beaconed_lem ev (build_dest_string ev) (marked_writes ev.pid ce) ce e))
]
