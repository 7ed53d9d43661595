-- ===== src/Monitor/Correlation/Missed.antt =====
-- Writes whose report depends on the order of events.
use gasha_sandbox.Common.{
  ◌≡◌, refl, sym, ap, subst, Bool, true, false, some, List, [], ◌∷◌, ◌++◌, arith, ◌∙◌,
  if◌then◌else◌, inl, inr, Bool-cases, ==_refl, is_nil,
}
use gasha_sandbox.Common.Text.{Text, text_eq}
use gasha_sandbox.Monitor.Events.{file_write, network_connect, Event, string_at}
use gasha_sandbox.Monitor.Correlation.State.{Engine, append_at}
use gasha_sandbox.Monitor.Correlation.Persistence.{
  file, is_persistence, is_persistent_item, check_persistence_to_c2,
}
use gasha_sandbox.Monitor.Correlation.Dispatch.{
  on_file_write, file_written, handle, process_event, build_dest_string,
}
use gasha_sandbox.Monitor.Correlation.Raises.{Raises, check_persistence_to_c2-Raises}
use gasha_sandbox.Common.{any}
use gasha_sandbox.Monitor.Correlation.Chain.{sent}
use gasha_sandbox.Monitor.Correlation.Aftermath.{
  has_persisted, persistence_alert, alerts-alert_if, connect_alerts, connected-net_conns,
}

any-append_none {ℓ} :
    {A : Type ℓ} (p : A → Bool) (l : List A) (x : A)
    → any p l ≡ false
    → p x ≡ false
    → any p (l ++ x ∷ []) ≡ false
any-append_none p [] x h k = ground arith
any-append_none p (y ∷ l) x h k = ground (arith, any-append_none p l x)

process_event-file_written :
    (ev : Event) (ce : Engine) (path : Text)
    → ev.event_type ≡ file_write
    → string_at "path" ev.fields ≡ some path
    → process_event ev ce ≡ file_written (some path) ev ce
unfolding process_event handle on_file_write
process_event-file_written ev ce path w k =
    ap (λ k. handle k ev ce) w ∙ ap (λ o. file_written o ev ce) k

file_written-lists :
    (ev : Event) (ce : Engine) (path : Text)
    → ((file_written (some path) ev ce).file_writes ev.pid ≡ ce.file_writes ev.pid ++ path ∷ [])
      × ((file_written (some path) ev ce).reg_writes ev.pid ≡ ce.reg_writes ev.pid)
unfolding file_written
file_written-lists ev ce path = (
  ap (λ (e : Engine). e.file_writes ev.pid) r.result ∙ (rw ==_refl),
  ap (λ (e : Engine). e.reg_writes ev.pid) r.result,
)
  where
    r :
        Raises ev.pid ev.timestamp
          (record ce { file_writes = append_at ce.file_writes ev.pid path })
          (check_persistence_to_c2 ev.pid path file ev.timestamp
            (record ce { file_writes = append_at ce.file_writes ev.pid path }))
    r = check_persistence_to_c2-Raises ev.pid ev.timestamp _ path file

file_written-alerts :
    (ev : Event) (ce : Engine) (path : Text)
    → is_persistence file path ≡ true
    → (file_written (some path) ev ce).alerts ≡ (
        if is_nil (ce.net_conns ev.pid)
        then ce.alerts
        else sent (persistence_alert ce.job_id ev.pid path (ce.net_conns ev.pid) ev.timestamp) ce)
unfolding file_written check_persistence_to_c2 persistence_alert
file_written-alerts ev ce path p =
    alerts-alert_if _ ev.pid _ _ _ _ _ _
    ∙ (rw p (elim (Bool-cases (is_nil (ce.net_conns ev.pid))) [ inl e ↦ rw e | inr e ↦ rw e ]))

-- A file write that the check of writes knows and the check of connections does not, such as one of
-- /etc/rc.local, is reported in one order only: a later connection of a process that wrote nothing
-- else persistent adds no alert, where the write after the connection sends its alert.
pub order_matters :
    (ce : Engine) (write connect : Event) (path : Text)
    → write.event_type ≡ file_write
    → string_at "path" write.fields ≡ some path
    → is_persistence file path ≡ true
    → is_persistent_item file path ≡ false
    → has_persisted write.pid ce ≡ false
    → connect.event_type ≡ network_connect
    → connect.pid ≡ write.pid
    → text_eq (build_dest_string connect) [] ≡ false
    → let connected = process_event connect ce in
      ((process_event connect (process_event write ce)).alerts ≡ (process_event write ce).alerts)
      × ((process_event write connected).alerts
          ≡ sent
              (persistence_alert connected.job_id write.pid path
                (connected.net_conns write.pid)
                write.timestamp)
              connected)
order_matters ce write connect path w k known item clean c same dest = (
  connect_alerts connect _ c dest
      ∙ (rw (subst (λ q. has_persisted q (process_event write ce) ≡ false) (sym same) unseen) refl),
  ap (λ (e : Engine). e.alerts) (process_event-file_written write _ path w k)
      ∙ file_written-alerts write _ path known
      ∙ (rw
          (subst (λ q. is_nil ((process_event connect ce).net_conns q) ≡ false) same
            (connected-net_conns connect ce c dest))
          refl),
)
  where
    lists :
        ((process_event write ce).file_writes write.pid ≡ ce.file_writes write.pid ++ path ∷ [])
        × ((process_event write ce).reg_writes write.pid ≡ ce.reg_writes write.pid)
    lists = rw (process_event-file_written write ce path w k) (file_written-lists write ce path)

    unseen : has_persisted write.pid (process_event write ce) ≡ false
    unseen =
        rw (lists.0, lists.1)
          (ground
            (arith, any-append_none (is_persistent_item file) (ce.file_writes write.pid) path))
