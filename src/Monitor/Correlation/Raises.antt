-- ===== src/Monitor/Correlation/Raises.antt =====
-- The checks of the correlation engine only raise alerts: they append to the channel, within its
-- capacity, alerts that carry the process and the time of the event.
use gasha_sandbox.Common.{
  ℕ, ◌≤◌, Bool, true, false, Option, none, some, List, [], ◌∷◌, ◌++◌, ◌≡◌, refl, sym, subst,
  append_assoc, append-nil, arith, length, length-append, All, All-append, if◌then◌else◌, ltb, inl,
  inr, Bool-cases, ltb→lt,
}
use gasha_sandbox.Common.Text.{Text}
use gasha_sandbox.Monitor.Correlation.State.{
  Alert, Engine, ProcessNode, Detail, InjectionState, emit_alert, alert_if,
}
use gasha_sandbox.Monitor.Correlation.Nodes.{
  check_privilege_escalation, check_lolbin_rename, check_persistence_tool_spawn, escalation_alerts,
  user_rises, integrity_rises,
}
use gasha_sandbox.Monitor.Correlation.Injection.{exec_alert}
use gasha_sandbox.Monitor.Correlation.Persistence.{
  ObjectType, check_persistence_to_c2, check_c2_aftermath, check_reflective_injection,
  check_lsass_access,
}

-- The alert is of this process, at this time, for this engine's job.
abbrev pub IsTagged : ℕ → ℕ → Text → Alert → Type 0
IsTagged pid t job a = (a.pid ≡ pid) × (a.timestamp ≡ t) × (a.job_id ≡ job)

-- `after` is `before` with tagged alerts sent.
pub record Raises (pid t : ℕ) (before after : Engine) : Type 0 where
  pub added : List Alert
  pub result : after ≡ record before { alerts = before.alerts ++ added }
  pub tagged : All (IsTagged pid t before.job_id) added
  pub fits :
      length before.alerts ≤ before.alerts_cap → length (before.alerts ++ added) ≤ before.alerts_cap

module _ {pid t : ℕ} where
  pub Raises-refl : (ce : Engine) → Raises pid t ce ce
  Raises-refl ce = record {
    added = [];
    result = rw append-nil;
    tagged = tt;
    fits = λ h. rw append-nil h;
  }

  Raises-record :
      (a : Engine) (xs ys : List Alert)
      → All (IsTagged pid t a.job_id) xs
      → All (IsTagged pid t a.job_id) ys
      → (length a.alerts ≤ a.alerts_cap → length (a.alerts ++ xs) ≤ a.alerts_cap)
      → (length (a.alerts ++ xs) ≤ a.alerts_cap → length ((a.alerts ++ xs) ++ ys) ≤ a.alerts_cap)
      → Raises pid t a (record a { alerts = (a.alerts ++ xs) ++ ys })
  Raises-record a xs ys hx hy fx fy = record {
    added = xs ++ ys;
    result = rw append_assoc;
    tagged = All-append (IsTagged pid t a.job_id) xs ys hx hy;
    fits = λ h. rw (← append_assoc) (fy (fx h));
  }

  pub Raises-trans : {a b c : Engine} → Raises pid t a b → Raises pid t b c → Raises pid t a c
  Raises-trans {a} {b} {c} p q =
      subst (λ e. Raises pid t a e) (sym q.result) (go b p.result q.added q.tagged q.fits)
    where
      go :
          (b : Engine)
          → b ≡ record a { alerts = a.alerts ++ p.added }
          → (ys : List Alert) → All (IsTagged pid t b.job_id) ys
          → (length b.alerts ≤ b.alerts_cap → length (b.alerts ++ ys) ≤ b.alerts_cap)
          → Raises pid t a (record b { alerts = b.alerts ++ ys })
      go b e =
          subst
            (λ (b : Engine).
              (ys : List Alert)
              → All (IsTagged pid t b.job_id) ys
              → (length b.alerts ≤ b.alerts_cap → length (b.alerts ++ ys) ≤ b.alerts_cap)
              → Raises pid t a (record b { alerts = b.alerts ++ ys }))
            (sym e) (λ ys hy fy. Raises-record a p.added ys p.tagged hy p.fits fy)

  pub Raises-emit :
      (ttp technique : Text) (details : Detail) (severity : ℕ) (ce : Engine)
      → Raises pid t ce (emit_alert pid ttp technique details severity t ce)
  unfolding emit_alert
  Raises-emit ttp technique details severity ce =
      elim (Bool-cases (ltb (length ce.alerts) ce.alerts_cap)) [
        | inl room ↦ rw room (record {
          added = alert ∷ [];
          result = refl;
          tagged = ((refl, refl, refl), tt);
          fits = λ h. rw length-append (omega (arith, ltb→lt _ _ room));
        })
        | inr full ↦ rw full (Raises-refl ce)
      ]
    where
      alert : Alert
      alert = record {
        job_id = ce.job_id;
        timestamp = t;
        pid = pid;
        severity = severity;
        technique = technique;
        details = details;
        mitre_ttp = ttp;
      }

  pub Raises-if :
      (test : Bool) {a b c : Engine}
      → Raises pid t a b
      → Raises pid t a c
      → Raises pid t a (if test then b else c)
  Raises-if true p q = p
  Raises-if false p q = q

  pub Raises-alert :
      (test : Bool) (ttp technique : Text) (details : Detail) (severity : ℕ) {a b : Engine}
      → Raises pid t a b
      → Raises pid t a (alert_if test pid ttp technique details severity t b)
  unfolding alert_if
  Raises-alert true ttp technique details severity p =
      Raises-trans p (Raises-emit ttp technique details severity _)
  Raises-alert false ttp technique details severity p = p

pub ruleset raises_rules = (Raises-refl, Raises-emit, Raises-if, Raises-alert)

escalation_alerts-Raises :
    (parent : Option ProcessNode) (node : ProcessNode) (t : ℕ) (ce : Engine)
    → Raises node.pid t ce (escalation_alerts parent node t ce)
unfolding escalation_alerts
escalation_alerts-Raises none node t ce = Raises-refl ce
escalation_alerts-Raises (some parent) node t ce =
    Raises-alert (user_rises parent node) _ _ _ _
      (Raises-alert (integrity_rises parent node) _ _ _ _ (Raises-refl ce))

pub check_privilege_escalation-Raises :
    (node : ProcessNode) (t : ℕ) (ce : Engine)
    → Raises node.pid t ce (check_privilege_escalation node t ce)
unfolding check_privilege_escalation
check_privilege_escalation-Raises node t ce = escalation_alerts-Raises _ node t ce

pub check_lolbin_rename-Raises :
    (node : ProcessNode) (t : ℕ) (ce : Engine)
    → Raises node.pid t ce (check_lolbin_rename node t ce)
unfolding check_lolbin_rename
check_lolbin_rename-Raises node t ce = Raises-alert _ _ _ _ _ (Raises-refl ce)

pub check_persistence_tool_spawn-Raises :
    (node : ProcessNode) (t : ℕ) (ce : Engine)
    → Raises node.pid t ce (check_persistence_tool_spawn node t ce)
unfolding check_persistence_tool_spawn
check_persistence_tool_spawn-Raises node t ce = search raises_rules depth 9

pub exec_alert-Raises :
    (source : ℕ) (api : Text) (target now : ℕ) (prior : Option InjectionState) (ce : Engine)
    → Raises source now ce (exec_alert source api target now prior ce)
unfolding exec_alert
exec_alert-Raises source api target now none ce = Raises-emit _ _ _ _ ce
exec_alert-Raises source api target now (some st) ce = search raises_rules

module _ (pid : ℕ) (t : ℕ) (ce : Engine) where
  pub check_persistence_to_c2-Raises :
      (path : Text) (kind : ObjectType)
      → Raises pid t ce (check_persistence_to_c2 pid path kind t ce)
  unfolding check_persistence_to_c2
  check_persistence_to_c2-Raises path kind = Raises-alert _ _ _ _ _ (Raises-refl ce)

  pub check_c2_aftermath-Raises : (dest : Text) → Raises pid t ce (check_c2_aftermath pid dest t ce)
  unfolding check_c2_aftermath
  check_c2_aftermath-Raises dest = Raises-alert _ _ _ _ _ (Raises-refl ce)

  pub check_reflective_injection-Raises :
      (image : Text) → Raises pid t ce (check_reflective_injection pid image t ce)
  unfolding check_reflective_injection
  check_reflective_injection-Raises image = Raises-emit _ _ _ _ ce

  pub check_lsass_access-Raises :
      (kind name : Text) → Raises pid t ce (check_lsass_access pid kind name t ce)
  unfolding check_lsass_access
  check_lsass_access-Raises kind name = Raises-alert _ _ _ _ _ (Raises-refl ce)
