-- ===== src/Monitor/Correlation/Aftermath.antt =====
-- The beaconing alert of a connection, exactly.
use gasha_sandbox.Common.{
  ℕ, ◌≡◌, refl, ap, Bool, true, false, List, [], ◌∷◌, ◌++◌, arith, ◌∙◌, if◌then◌else◌, ◌||◌, not,
  inl, inr, Bool-cases, ==_refl, is_nil,
}
use gasha_sandbox.Common.Text.{Text, codes, text_eq}
use gasha_sandbox.Monitor.Events.{network_connect, Event}
use gasha_sandbox.Monitor.Correlation.State.{
  Engine, Alert, Detail, emit_alert, alert_if, persistence_with_c2, connected_after,
}
use gasha_sandbox.Monitor.Correlation.Persistence.{
  ObjectType, registry, file, is_persistent_item, first_item, aftermath_item, check_c2_aftermath,
}
use gasha_sandbox.Monitor.Correlation.Dispatch.{
  on_network_connect, handle, process_event, build_dest_string,
}
use gasha_sandbox.Monitor.Correlation.Raises.{check_c2_aftermath-Raises}
use gasha_sandbox.Common.{any}
use gasha_sandbox.Common.Text.{lower, contains}
use gasha_sandbox.Monitor.Events.{sev_high, sev_critical}
use gasha_sandbox.Monitor.Correlation.Chain.{sent, alerts-send}

-- The empty text is no persistent item, so the empty text can stand for "none".
is_persistent_item-nil : (kind : ObjectType) → is_persistent_item kind [] ≡ false
unfolding is_persistent_item lower contains codes
is_persistent_item-nil registry = refl
is_persistent_item-nil file = refl

item-nonempty :
    (kind : ObjectType) (p : Text) → is_persistent_item kind p ≡ true → text_eq p [] ≡ false
unfolding text_eq
item-nonempty kind [] h = ground (arith, is_persistent_item-nil kind)
item-nonempty kind (c ∷ p) h = refl

pub first_item-any :
    (kind : ObjectType) (l : List Text)
    → text_eq (first_item kind l) [] ≡ not (any (is_persistent_item kind) l)
unfolding first_item text_eq
first_item-any kind [] = refl
first_item-any kind (p ∷ l) = elim (Bool-cases (is_persistent_item kind p)) [
  | inl e ↦ rw e (item-nonempty kind p e)
  | inr e ↦ rw e (first_item-any kind l)
]

-- Has the process written an item that passes the tests?
abbrev pub has_persisted : ℕ → Engine → Bool
has_persisted pid ce =
    any (is_persistent_item registry) (ce.reg_writes pid)
    || any (is_persistent_item file) (ce.file_writes pid)

aftermath_item-has_persisted :
    (pid : ℕ) (ce : Engine) → not (text_eq (aftermath_item pid ce) []) ≡ has_persisted pid ce
unfolding aftermath_item
aftermath_item-has_persisted pid ce =
    elim (Bool-cases (any (is_persistent_item registry) (ce.reg_writes pid))) [
      | inl e ↦
          let n : text_eq (first_item registry (ce.reg_writes pid)) [] ≡ false =
            first_item-any registry _ ∙ (rw e) in
          rw (n, e) (rw n)
      | inr e ↦
          let n : text_eq (first_item registry (ce.reg_writes pid)) [] ≡ true =
            first_item-any registry _ ∙ (rw e) in
          rw (n, e) (rw (first_item-any file (ce.file_writes pid)) (ground arith))
    ]

-- The alert of a connection after a persistent write.
unfoldable pub beacon_alert : Text → ℕ → Text → Text → ℕ → Alert
beacon_alert job pid dest item t = record {
  job_id = job;
  timestamp = t;
  pid = pid;
  severity = sev_critical;
  technique = codes "C2 Beaconing from Persistent Process";
  details = connected_after pid dest item;
  mitre_ttp = codes "T1071.001";
}

-- The alert of a persistent write with connections open.
unfoldable pub persistence_alert : Text → ℕ → Text → List Text → ℕ → Alert
persistence_alert job pid path conns t = record {
  job_id = job;
  timestamp = t;
  pid = pid;
  severity = sev_high;
  technique = codes "Persistence + Outbound C2";
  details = persistence_with_c2 pid path conns;
  mitre_ttp = codes "T1547";
}

pub alerts-alert_if :
    (test : Bool) (pid : ℕ) (ttp technique : Text) (details : Detail) (severity t : ℕ) (ce : Engine)
    → (alert_if test pid ttp technique details severity t ce).alerts ≡ (
        if test
        then sent
            (record {
              job_id = ce.job_id;
              timestamp = t;
              pid = pid;
              severity = severity;
              technique = technique;
              details = details;
              mitre_ttp = ttp;
            })
            ce
        else ce.alerts)
unfolding alert_if emit_alert
alerts-alert_if true pid ttp technique details severity t ce = alerts-send _ ce
alerts-alert_if false pid ttp technique details severity t ce = refl

on_network_connect-alerts :
    (ev : Event) (ce : Engine)
    → text_eq (build_dest_string ev) [] ≡ false
    → (on_network_connect ev ce).alerts ≡ (
        if has_persisted ev.pid ce
        then sent
            (beacon_alert ce.job_id ev.pid
              (build_dest_string ev)
              (aftermath_item ev.pid ce)
              ev.timestamp)
            ce
        else ce.alerts)
unfolding on_network_connect check_c2_aftermath beacon_alert aftermath_item
on_network_connect-alerts ev ce dest =
    rw dest
      (alerts-alert_if _ ev.pid _ _ _ _ _ _ ∙ (rw (aftermath_item-has_persisted ev.pid ce) refl))

-- A connection with a destination raises the beaconing alert, and nothing else, exactly when the process
-- has written an item that passes the tests of `checkC2Aftermath`.
pub connect_alerts :
    (ev : Event) (ce : Engine)
    → ev.event_type ≡ network_connect
    → text_eq (build_dest_string ev) [] ≡ false
    → (process_event ev ce).alerts ≡ (
        if has_persisted ev.pid ce
        then sent
            (beacon_alert ce.job_id ev.pid
              (build_dest_string ev)
              (aftermath_item ev.pid ce)
              ev.timestamp)
            ce
        else ce.alerts)
unfolding process_event handle
connect_alerts ev ce kind dest =
    ap (λ k. (handle k ev ce).alerts) kind ∙ on_network_connect-alerts ev ce dest

is_nil-append_one {ℓ} : {A : Type ℓ} (l : List A) (x : A) → is_nil (l ++ x ∷ []) ≡ false
is_nil-append_one [] x = refl
is_nil-append_one (y ∷ l) x = refl

pub connected-net_conns :
    (ev : Event) (ce : Engine)
    → ev.event_type ≡ network_connect
    → text_eq (build_dest_string ev) [] ≡ false
    → is_nil ((process_event ev ce).net_conns ev.pid) ≡ false
unfolding process_event handle on_network_connect
connected-net_conns ev ce kind dest =
    ap (λ k. is_nil ((handle k ev ce).net_conns ev.pid)) kind
    ∙ (rw dest (
        ap (λ (e : Engine). is_nil (e.net_conns ev.pid))
          (check_c2_aftermath-Raises ev.pid ev.timestamp _ _).result
        ∙ (rw ==_refl (is_nil-append_one _ _))))
