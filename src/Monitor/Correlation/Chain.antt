-- ===== src/Monitor/Correlation/Chain.antt =====
-- The injection chain of a pair of processes over a stream of events.
use gasha_sandbox.Common.{
  ℕ, ◌≡◌, ◌≢◌, refl, true, false, none, some, List, [], ◌∷◌, ◌++◌, arith, ◌∙◌, length, ◌+◌, leb,
  ltb, if◌then◌else◌, ◌==◌, ◌||◌, ◌⊎◌, inl, inr, Bool-cases, All,
}
use gasha_sandbox.Common.Text.{Text, codes, utf8, text_eq}
use gasha_sandbox.Monitor.Events.{api_call, thread_create, Event, Fields, string_of}
use gasha_sandbox.Monitor.Correlation.State.{
  InjectionState, Engine, Alert, send, emit_alert, expired, within_primary_window,
  injection_primary_window, injection_max_window, confirmed_chain, late_chain, no_prior, append_at,
}
use gasha_sandbox.Monitor.Correlation.Injection.{
  track, extract_target_pid, check_process_injection_windowed, is_prep, is_exec, drop_expired,
  exec_alert,
}
use gasha_sandbox.Monitor.Correlation.Dispatch.{
  on_api_call, on_thread_create, handle, process_event,
}
use gasha_sandbox.Monitor.Correlation.Valid.{IsValid}
use gasha_sandbox.Monitor.Correlation.Valid.Events.{process_event-IsValid}
use gasha_sandbox.Monitor.Correlation.Pairs.{leaves_pair, process_event-leaves_pair}
use gasha_sandbox.Monitor.Events.{sev_high, sev_critical}

-- The engine after a stream of events.
abbrev pub process_events : List Event → Engine → Engine
process_events [] ce = ce
process_events (ev ∷ evs) ce = process_events evs (process_event ev ce)

pub process_events-IsValid :
    (evs : List Event) (ce : Engine) → IsValid ce → IsValid (process_events evs ce)
process_events-IsValid [] ce v = v
process_events-IsValid (ev ∷ evs) ce v =
    process_events-IsValid evs _ (process_event-IsValid ev ce v)

pub process_events-leaves_pair :
    (evs : List Event) (ce : Engine) (s u : ℕ)
    → IsValid ce
    → All (λ ev. leaves_pair s u ev ≡ true) evs
    → (process_events evs ce).injection_state s u ≡ ce.injection_state s u
process_events-leaves_pair [] ce s u v h = refl
process_events-leaves_pair (ev ∷ evs) ce s u v h =
    process_events-leaves_pair evs (process_event ev ce) s u (process_event-IsValid ev ce v) h.1
    ∙ process_event-leaves_pair ev ce s u v h.0

-- An API call of `source` on `target` that prepares an injection.
pub record IsPrepCall (source target : ℕ) (ev : Event) : Type 0 where
  pub kind : ev.event_type ≡ api_call
  pub source_pid : ev.pid ≡ source
  pub target_pid : extract_target_pid ev.fields ≡ target
  pub named : text_eq (string_of "api_name" ev.fields) [] ≡ false
  pub prep : is_prep (string_of "api_name" ev.fields) ≡ true

-- An event that starts code in the target: a thread creation, or an API call.
pub record IsExecEvent (source target : ℕ) (api : Text) (ev : Event) : Type 0 where
  pub kind :
      (ev.event_type ≡ thread_create) × (api ≡ codes "CreateRemoteThread")
      ⊎ (ev.event_type ≡ api_call)
        × (api ≡ string_of "api_name" ev.fields)
        × (text_eq api [] ≡ false)
  pub source_pid : ev.pid ≡ source
  pub target_pid : extract_target_pid ev.fields ≡ target
  pub not_prep : is_prep api ≡ false
  pub exec : is_exec api ≡ true

-- The alert that the documentation promises for a preparation at `first` and an execution at `now`.
pub chain_alert : Text → ℕ → Text → ℕ → ℕ → ℕ → Alert
chain_alert job source api target first now =
    if leb now (first + injection_primary_window)
    then record {
      job_id = job;
      timestamp = now;
      pid = source;
      severity = sev_critical;
      technique = utf8 (codes "Process Injection — Confirmed Chain");
      details = confirmed_chain source api target first now;
      mitre_ttp = codes "T1055.001";
    }
    else if leb now (first + injection_max_window)
    then record {
      job_id = job;
      timestamp = now;
      pid = source;
      severity = sev_high;
      technique = codes "Suspicious Cross-Process API (late)";
      details = late_chain source api target first now;
      mitre_ttp = codes "T1055";
    }
    else record {
      job_id = job;
      timestamp = now;
      pid = source;
      severity = sev_high;
      technique = codes "Remote Thread Without Prior Allocation";
      details = no_prior source api target;
      mitre_ttp = codes "T1055";
    }

-- The alerts after a send: the new one is last, or is dropped where the channel is full.
abbrev pub sent : Alert → Engine → List Alert
sent a ce = if ltb (length ce.alerts) ce.alerts_cap then ce.alerts ++ a ∷ [] else ce.alerts

pub alerts-send : (a : Alert) (ce : Engine) → (send a ce).alerts ≡ sent a ce
unfolding send
alerts-send a ce = elim (Bool-cases (ltb (length ce.alerts) ce.alerts_cap)) [
  | inl e ↦ rw e
  | inr e ↦ rw e
]

abbrev prepared : ℕ → ℕ → InjectionState
prepared target now = record {
  target_pid = target;
  has_alloc = true;
  first_seen = now;
  last_seen = now;
}

module _ (source target : ℕ) (real : target ≢ 0) (foreign : target ≢ source) where
  track_taken :
      (api : Text) (args : Fields) (now : ℕ) (ce : Engine)
      → extract_target_pid args ≡ target
      → check_process_injection_windowed source api args now ce ≡ track source api target now ce
  unfolding check_process_injection_windowed
  track_taken api args now ce h =
      let e : (target == 0 || target == source) ≡ false = ground arith in rw (h, e) refl

  -- The first preparation call is recorded with its time.
  prep_recorded :
      (ev : Event) (ce : Engine)
      → IsPrepCall source target ev
      → ce.injection_state source target ≡ none
      → (process_event ev ce).injection_state source target ≡ some (prepared target ev.timestamp)
  unfolding process_event handle on_api_call track
  prep_recorded ev ce p h =
      rw
        (p.kind, p.named, p.source_pid, track_taken _ ev.fields ev.timestamp _ p.target_pid, p.prep)
        (ground arith)

  -- What `exec_alert` sends is the alert of the documentation.
  exec_alert-chain :
      (api : Text) (first now : ℕ) (ce : Engine)
      → exec_alert source api target now (drop_expired now (some (prepared target first))) ce
        ≡ send (chain_alert ce.job_id source api target first now) ce
  unfolding exec_alert emit_alert expired within_primary_window chain_alert
  exec_alert-chain api first now ce =
      elim (Bool-cases (leb now (first + injection_primary_window))) [
        | inl near ↦
            let e : ltb (first + injection_max_window) now ≡ false = ground arith in
            rw (e, near) refl
        | inr far ↦ elim (Bool-cases (leb now (first + injection_max_window))) [
          | inl late ↦
              let e : ltb (first + injection_max_window) now ≡ false = ground arith in
              rw (e, far, late) refl
          | inr gone ↦
              let e : ltb (first + injection_max_window) now ≡ true = ground arith in
              rw (e, far, gone) refl
        ]
      ]

  -- The alerts and the pair's record after an execution.
  track-exec :
      (api : Text) (first now : ℕ) (ce : Engine)
      → is_prep api ≡ false
      → is_exec api ≡ true
      → ce.injection_state source target ≡ some (prepared target first)
      → ((track source api target now ce).alerts
          ≡ sent (chain_alert ce.job_id source api target first now) ce)
        × ((track source api target now ce).injection_state source target ≡ none)
  unfolding track
  track-exec api first now ce n x h =
      (rw (n, x, h, exec_alert-chain api first now ce) (alerts-send _ ce), rw (n, x) (ground arith))

  exec_raised :
      (ev : Event) (api : Text) (first : ℕ) (ce : Engine)
      → IsExecEvent source target api ev
      → ce.injection_state source target ≡ some (prepared target first)
      → ((process_event ev ce).alerts
          ≡ sent (chain_alert ce.job_id source api target first ev.timestamp) ce)
        × ((process_event ev ce).injection_state source target ≡ none)
  unfolding process_event handle on_api_call on_thread_create
  exec_raised ev api first ce x h = elim x.kind [
    | inl (thread, same) ↦
        let e : (extract_target_pid ev.fields == 0 || extract_target_pid ev.fields == ev.pid)
            ≡ false =
          ground (arith, x.target_pid, x.source_pid) in
        rw (thread, e, x.source_pid, ← same, track_taken _ ev.fields ev.timestamp _ x.target_pid)
          (track-exec api first ev.timestamp ce x.not_prep x.exec h)
    | inr (call, same, named) ↦
        rw (call, ← same, named, x.source_pid, track_taken _ ev.fields ev.timestamp _ x.target_pid)
          (track-exec api first ev.timestamp
            (record ce { api_calls = append_at ce.api_calls source api }) x.not_prep x.exec h)
  ]

  -- A first preparation call of a process on another, then any events that leave the pair alone,
  -- then an execution call: the alert that is sent is the confirmed chain where at most the primary
  -- window has passed since the preparation, the late one up to the maximal window, and after that
  -- the one without prior allocation. The record of the pair is gone afterwards.
  pub injection_chain :
      (ce : Engine) (prep exec : Event) (api : Text) (between : List Event)
      → IsValid ce
      → ce.injection_state source target ≡ none
      → IsPrepCall source target prep
      → All (λ ev. leaves_pair source target ev ≡ true) between
      → IsExecEvent source target api exec
      → let mid = process_events between (process_event prep ce) in
        ((process_event exec mid).alerts
          ≡ sent (chain_alert mid.job_id source api target prep.timestamp exec.timestamp) mid)
        × ((process_event exec mid).injection_state source target ≡ none)
  injection_chain ce prep exec api between v fresh p quiet x =
      exec_raised exec api prep.timestamp _ x (
        process_events-leaves_pair between _ source target (process_event-IsValid prep ce v) quiet
        ∙ prep_recorded prep ce p fresh)
