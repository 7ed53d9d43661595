-- ===== src/Rules/Sigma/Severities/Rated.antt =====
-- The severities of the hits of the built-in rules of pkg/rules/sigma.go.
use gasha_sandbox.Common.{
  ◌≡◌, refl, inl, inr, Bool, true, false, ◌||◌, Option, none, some, List, [], ◌∷◌, ◌++◌,
  if◌then◌else◌, is_nil, All, All-append, Bool-cases,
}
use gasha_sandbox.Common.Text.{Text, codes, text_eq, lower, member, contains}
use gasha_sandbox.Monitor.Events.{
  Event, EventType, string_of, process_create, registry_set, file_write, network_connect,
  network_dns, handle_create, handle_duplicate, powershell_exec, amsi_scan, evasion_attempt,
  wmi_activity, scheduled_task, service_install,
}
use gasha_sandbox.Rules.Hit.{RuleHit}
use gasha_sandbox.Rules.Sigma.Builtin.Base.{Known, hit_if, hit_for, thread_hit}
use gasha_sandbox.Rules.Sigma.Builtin.System.{
  process_create_hits, registry_set_hits, file_write_hits, network_connect_hits, network_dns_hits,
  handle_create_hits, handle_duplicate_hits,
}
use gasha_sandbox.Rules.Sigma.Builtin.Scripts.{
  powershell_hits, amsi_scan_hits, evasion_hits, wmi_hits, scheduled_task_hits,
  service_install_hits,
}
use gasha_sandbox.Rules.Sigma.Builtin.{builtin_for}

-- The severities that the comment on `RuleHit` lists.
unfoldable pub is_severity : Text → Bool
is_severity s =
    member s
      (codes "informational" ∷ codes "low" ∷ codes "medium" ∷ codes "high" ∷ codes "critical" ∷ [])

abbrev pub IsRated : RuleHit → Type 0
IsRated r = is_severity r.severity ≡ true

-- All of the hits are rated.
unfoldable pub AllRated : List RuleHit → Type 0
AllRated rs = All IsRated rs

pub low_lem : is_severity (codes "low") ≡ true
unfolding is_severity codes member text_eq
low_lem = refl

pub medium_lem : is_severity (codes "medium") ≡ true
unfolding is_severity codes member text_eq
medium_lem = refl

pub high_lem : is_severity (codes "high") ≡ true
unfolding is_severity codes member text_eq
high_lem = refl

pub critical_lem : is_severity (codes "critical") ≡ true
unfolding is_severity codes member text_eq
critical_lem = refl

pub informational_lem : is_severity (codes "informational") ≡ true
unfolding is_severity codes member text_eq
informational_lem = refl

hit_if-AllRated : (b : Bool) (r : RuleHit) → IsRated r → AllRated (hit_if b r)
unfolding AllRated hit_if
hit_if-AllRated true r h = (h, tt)
hit_if-AllRated false r h = tt

hit_for-AllRated :
    (o : Option Text) (f : Text → RuleHit) → ((t : Text) → IsRated (f t)) → AllRated (hit_for o f)
unfolding AllRated hit_for
hit_for-AllRated none f h = tt
hit_for-AllRated (some t) f h = (h t, tt)

if-AllRated :
    (b : Bool) (xs ys : List RuleHit) → AllRated xs → AllRated ys → AllRated (if b then xs else ys)
if-AllRated true xs ys hx hy = hx
if-AllRated false xs ys hx hy = hy

pub append-AllRated : (xs ys : List RuleHit) → AllRated xs → AllRated ys → AllRated (xs ++ ys)
unfolding AllRated
append-AllRated = All-append IsRated

pub cons-AllRated : (r : RuleHit) (rs : List RuleHit) → IsRated r → AllRated rs → AllRated (r ∷ rs)
unfolding AllRated
cons-AllRated r rs h hs = (h, hs)

pub nil_rated : AllRated []
unfolding AllRated
nil_rated = tt

thread_hit-AllRated : (ev : Event) (o : Option Text) → AllRated (thread_hit ev o)
unfolding thread_hit
thread_hit-AllRated ev none = nil_rated
thread_hit-AllRated ev (some t) = cons-AllRated _ [] high_lem nil_rated

process_create-AllRated : (k : Known) (ev : Event) → AllRated (process_create_hits k ev)
unfolding process_create_hits
process_create-AllRated k ev =
    append-AllRated _ _
      (append-AllRated _ _
        (append-AllRated _ _
          (append-AllRated _ _ (hit_if-AllRated _ _ high_lem) (hit_if-AllRated _ _ high_lem))
          (hit_if-AllRated _ _ high_lem))
        (hit_if-AllRated _ _ critical_lem))
      (if-AllRated _ _ [] (thread_hit-AllRated ev _) nil_rated)

network_dns-AllRated : (k : Known) (ev : Event) → AllRated (network_dns_hits k ev)
unfolding network_dns_hits
network_dns-AllRated k ev =
    append-AllRated _ _ (hit_if-AllRated _ _ high_lem) (hit_for-AllRated _ _ (λ t. medium_lem))

handle_create-AllRated : (ev : Event) → AllRated (handle_create_hits ev)
unfolding handle_create_hits
handle_create-AllRated ev =
    append-AllRated _ _
      (append-AllRated _ _ (hit_if-AllRated _ _ critical_lem) (hit_if-AllRated _ _ medium_lem))
      (hit_if-AllRated _ _ low_lem)

powershell-AllRated : (ev : Event) → AllRated (powershell_hits ev)
unfolding powershell_hits
powershell-AllRated ev =
    append-AllRated _ _
      (append-AllRated _ _ (hit_if-AllRated _ _ high_lem) (hit_if-AllRated _ _ critical_lem))
      (hit_if-AllRated _ _ critical_lem)

wmi-AllRated : (ev : Event) → AllRated (wmi_hits ev)
unfolding wmi_hits
wmi-AllRated ev =
    elim (Bool-cases (text_eq (string_of "wmi_operation" ev.fields) (codes "EventSubscription"))) [
      | inl e ↦ rw e (cons-AllRated _ [] critical_lem nil_rated)
      | inr e ↦
          elim (Bool-cases
            (text_eq (string_of "wmi_operation" ev.fields) (codes "MethodExecution"))) [
              | inr m ↦ rw (e, m) nil_rated
              | inl m ↦
                  elim (Bool-cases (
                    contains (lower (string_of "wmi_method" ev.fields)) (codes "process")
                    || contains (lower (string_of "wmi_method" ev.fields)) (codes "create"))) [
                      | inl p ↦ rw (e, m, p) (cons-AllRated _ [] high_lem nil_rated)
                      | inr p ↦ rw (e, m, p) (cons-AllRated _ [] medium_lem nil_rated)
                    ]
            ]
    ]

scheduled_task-AllRated : (ev : Event) → AllRated (scheduled_task_hits ev)
unfolding scheduled_task_hits
scheduled_task-AllRated ev =
    elim (Bool-cases (text_eq (string_of "task_operation" ev.fields) (codes "Registered"))) [
      | inl e ↦ rw e (cons-AllRated _ _ high_lem (hit_if-AllRated _ _ critical_lem))
      | inr e ↦
          elim (Bool-cases (text_eq (string_of "task_operation" ev.fields) (codes "Updated"))) [
            | inl u ↦ rw (e, u) (cons-AllRated _ [] high_lem nil_rated)
            | inr u ↦
                elim (Bool-cases
                  (text_eq (string_of "task_operation" ev.fields) (codes "ActionStarted"))) [
                    | inl a ↦ rw (e, u, a) (hit_if-AllRated _ _ medium_lem)
                    | inr a ↦ rw (e, u, a) nil_rated
                  ]
          ]
    ]

service_install-AllRated : (ev : Event) → AllRated (service_install_hits ev)
unfolding service_install_hits
service_install-AllRated ev =
    elim (Bool-cases (
      text_eq (string_of "service_value" ev.fields) (codes "ImagePath")
      || is_nil (string_of "service_value" ev.fields))) [
        | inl e ↦ rw e (cons-AllRated _ _ high_lem (hit_for-AllRated _ _ (λ t. critical_lem)))
        | inr e ↦ rw e nil_rated
      ]

pub builtin_for-AllRated : (k : Known) (t : EventType) (ev : Event) → AllRated (builtin_for k t ev)
unfolding builtin_for
builtin_for-AllRated k process_create ev = process_create-AllRated k ev
builtin_for-AllRated k registry_set ev = unfold registry_set_hits in hit_if-AllRated _ _ high_lem
builtin_for-AllRated k file_write ev = unfold file_write_hits in hit_if-AllRated _ _ high_lem
builtin_for-AllRated k network_connect ev =
    unfold network_connect_hits in (cons-AllRated _ [] medium_lem nil_rated)
builtin_for-AllRated k network_dns ev = network_dns-AllRated k ev
builtin_for-AllRated k handle_create ev = handle_create-AllRated ev
builtin_for-AllRated k handle_duplicate ev =
    unfold handle_duplicate_hits in hit_if-AllRated _ _ critical_lem
builtin_for-AllRated k powershell_exec ev = powershell-AllRated ev
builtin_for-AllRated k amsi_scan ev = unfold amsi_scan_hits in hit_if-AllRated _ _ high_lem
builtin_for-AllRated k evasion_attempt ev =
    unfold evasion_hits in (cons-AllRated _ [] high_lem nil_rated)
builtin_for-AllRated k wmi_activity ev = wmi-AllRated ev
builtin_for-AllRated k scheduled_task ev = scheduled_task-AllRated ev
builtin_for-AllRated k service_install ev = service_install-AllRated ev
builtin_for-AllRated k _ ev = nil_rated
