-- ===== src/Monitor/Correlation/Order.antt =====
-- Persistence and outbound connections of one process, in either order.
use gasha_sandbox.Common.{
  ◌≡◌, refl, sym, ap, subst, Bool, true, false, some, List, [], ◌∷◌, ◌++◌, arith, ◌∙◌,
  if◌then◌else◌, inl, inr, Bool-cases, ==_refl, is_nil,
}
use gasha_sandbox.Common.Text.{Text, text_eq}
use gasha_sandbox.Monitor.Events.{registry_set, network_connect, Event, string_at, string_of}
use gasha_sandbox.Monitor.Correlation.State.{Engine}
use gasha_sandbox.Monitor.Correlation.Persistence.{
  registry, is_persistence, is_persistent_item, aftermath_item, check_persistence_to_c2,
}
use gasha_sandbox.Monitor.Correlation.Dispatch.{
  key_set, on_registry_set, handle, process_event, full_key, build_dest_string,
}
use gasha_sandbox.Monitor.Correlation.Raises.{check_persistence_to_c2-Raises}
use gasha_sandbox.Common.{any}
use gasha_sandbox.Monitor.Correlation.Chain.{sent}
use gasha_sandbox.Monitor.Correlation.Aftermath.{
  has_persisted, beacon_alert, persistence_alert, alerts-alert_if, connect_alerts,
  connected-net_conns,
}

key_set-alerts :
    (ev : Event) (ce : Engine) (key : Text)
    → is_persistence registry (full_key key (string_of "value_name" ev.fields)) ≡ true
    → (key_set (some key) ev ce).alerts ≡ (
        if is_nil (ce.net_conns ev.pid)
        then ce.alerts
        else sent
            (persistence_alert ce.job_id ev.pid
              (full_key key (string_of "value_name" ev.fields))
              (ce.net_conns ev.pid)
              ev.timestamp)
            ce)
unfolding key_set check_persistence_to_c2 persistence_alert
key_set-alerts ev ce key p =
    alerts-alert_if _ ev.pid _ _ _ _ _ _
    ∙ (rw p (elim (Bool-cases (is_nil (ce.net_conns ev.pid))) [ inl e ↦ rw e | inr e ↦ rw e ]))

persistent_item-IsPersistence :
    (path : Text) → is_persistent_item registry path ≡ true → is_persistence registry path ≡ true
unfolding is_persistent_item is_persistence
persistent_item-IsPersistence path h = ground arith

key_set-reg_writes :
    (ev : Event) (ce : Engine) (key : Text)
    → (key_set (some key) ev ce).reg_writes ev.pid
      ≡ ce.reg_writes ev.pid ++ full_key key (string_of "value_name" ev.fields) ∷ []
unfolding key_set
key_set-reg_writes ev ce key =
    ap (λ (e : Engine). e.reg_writes ev.pid)
      (check_persistence_to_c2-Raises ev.pid ev.timestamp _ _ registry).result
    ∙ (rw ==_refl)

any-append_one {ℓ} :
    {A : Type ℓ} (p : A → Bool) (l : List A) (x : A) → p x ≡ true → any p (l ++ x ∷ []) ≡ true
any-append_one p [] x h = ground arith
any-append_one p (y ∷ l) x h = ground (arith, any-append_one p l x h)

process_event-key_set :
    (ev : Event) (ce : Engine) (key : Text)
    → ev.event_type ≡ registry_set
    → string_at "key" ev.fields ≡ some key
    → process_event ev ce ≡ key_set (some key) ev ce
unfolding process_event handle on_registry_set
process_event-key_set ev ce key w k = ap (λ k. handle k ev ce) w ∙ ap (λ o. key_set o ev ce) k

-- The write of a Run, RunOnce or Services key and a connection of the same process are reported in
-- either order: the later of the two events sends its alert.
pub detected_either_order :
    (ce : Engine) (write connect : Event) (key : Text)
    → write.event_type ≡ registry_set
    → string_at "key" write.fields ≡ some key
    → is_persistent_item registry (full_key key (string_of "value_name" write.fields)) ≡ true
    → connect.event_type ≡ network_connect
    → connect.pid ≡ write.pid
    → text_eq (build_dest_string connect) [] ≡ false
    → let written = process_event write ce in
      let connected = process_event connect ce in
      ((process_event connect written).alerts
        ≡ sent
            (beacon_alert written.job_id connect.pid
              (build_dest_string connect)
              (aftermath_item connect.pid written)
              connect.timestamp)
            written)
      × ((process_event write connected).alerts
          ≡ sent
              (persistence_alert connected.job_id write.pid
                (full_key key (string_of "value_name" write.fields))
                (connected.net_conns write.pid)
                write.timestamp)
              connected)
detected_either_order ce write connect key w k item c same dest = (
  connect_alerts connect _ c dest
      ∙ (rw (subst (λ q. has_persisted q (process_event write ce) ≡ true) (sym same) persisted)
          refl),
  ap (λ (e : Engine). e.alerts) (process_event-key_set write _ key w k)
      ∙ key_set-alerts write _ key (persistent_item-IsPersistence _ item)
      ∙ (rw open_conns refl),
)
  where
    persisted : has_persisted write.pid (process_event write ce) ≡ true
    persisted =
        let e : any (is_persistent_item registry) ((process_event write ce).reg_writes write.pid)
            ≡ true =
          ap (λ (e : Engine). any (is_persistent_item registry) (e.reg_writes write.pid))
            (process_event-key_set write ce key w k)
          ∙ ap (any (is_persistent_item registry)) (key_set-reg_writes write ce key)
          ∙ any-append_one _ (ce.reg_writes write.pid) _ item in
        rw e refl

    open_conns : is_nil ((process_event connect ce).net_conns write.pid) ≡ false
    open_conns =
        subst (λ q. is_nil ((process_event connect ce).net_conns q) ≡ false) same
          (connected-net_conns connect ce c dest)
