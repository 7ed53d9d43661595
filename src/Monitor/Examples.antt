-- ===== src/Monitor/Examples.antt =====
-- Concrete events, and what the engine makes of them.
use gasha_sandbox.Common.{ℕ, ◌≡◌, refl, true, false, none, some, [], ◌∷◌, inl, arith}
use gasha_sandbox.Common.Text.{Text, codes, text_eq, lookup, contains, lower}
use gasha_sandbox.Monitor.Events.{
  EventType, Event, str, int, Fields, process_exit, api_call, thread_create, registry_set,
  network_connect, file_write, string_of, string_at,
}
use gasha_sandbox.Monitor.Correlation.State.{Engine, new_correlation_engine}
use gasha_sandbox.Monitor.Correlation.Injection.{is_prep, is_exec, extract_target_pid}
use gasha_sandbox.Monitor.Correlation.Dispatch.{process_event, build_dest_string, full_key}
use gasha_sandbox.Monitor.Correlation.Persistence.{
  aftermath_item, registry, file, is_persistent_item, is_persistence,
}
use gasha_sandbox.Monitor.Correlation.Valid.{IsValid, new_correlation_engine-IsValid}
use gasha_sandbox.Monitor.Correlation.Valid.Events.{process_event-IsValid}
use gasha_sandbox.Monitor.Correlation.Confined.{IsConfined}
use gasha_sandbox.Monitor.Correlation.Confined.Events.{process_event-IsConfined}
use gasha_sandbox.Monitor.Correlation.Exit.{IsForgotten, process_event-exit}
use gasha_sandbox.Monitor.Correlation.Chain.{
  IsPrepCall, IsExecEvent, chain_alert, sent, injection_chain,
}
use gasha_sandbox.Monitor.Correlation.Aftermath.{beacon_alert, persistence_alert, has_persisted}
use gasha_sandbox.Monitor.Correlation.Beacon.{marked_writes, beaconed, connect_beacons}
use gasha_sandbox.Monitor.Correlation.Order.{detected_either_order}

abbrev event : EventType → ℕ → ℕ → Fields → Event
event kind t pid fields = record {
  job_id = codes "job";
  timestamp = t;
  event_type = kind;
  event_id = 0;
  pid = pid;
  tid = 1;
  category = codes "";
  fields = fields;
  severity = 0;
}

abbrev engine : Engine
engine = new_correlation_engine (codes "job") 8

abbrev alloc : Event
alloc =
    event api_call 100 7
      ((codes "api_name", str (codes "VirtualAllocEx")) ∷ (codes "target_pid", int 9) ∷ [])

abbrev remote_thread : Event
remote_thread = event thread_create 200 7 ((codes "target_pid", int 9) ∷ [])

abbrev exit : Event
exit = event process_exit 300 7 []

abbrev connect : Event
connect = event network_connect 400 7 ((codes "dest_ip", str (codes "10.0.0.1")) ∷ [])

alloc_prep : IsPrepCall 7 9 alloc
unfolding codes text_eq string_of lookup is_prep extract_target_pid contains lower
alloc_prep = record { kind = refl; source_pid = refl; target_pid = refl; named = refl; prep = refl }

thread_exec : IsExecEvent 7 9 (codes "CreateRemoteThread") remote_thread
unfolding codes text_eq string_of lookup is_prep is_exec extract_target_pid contains lower
thread_exec = record {
  kind = inl (refl, refl);
  source_pid = refl;
  target_pid = refl;
  not_prep = refl;
  exec = refl;
}

process_event-IsValid_example : IsValid (process_event alloc engine)
process_event-IsValid_example =
    process_event-IsValid alloc engine (new_correlation_engine-IsValid (codes "job") 8)

process_event-IsConfined_example : IsConfined 7 100 engine (process_event alloc engine)
process_event-IsConfined_example =
    process_event-IsConfined alloc engine (new_correlation_engine-IsValid (codes "job") 8)

process_event-exit_example :
    IsForgotten 7 (process_event alloc engine) (process_event exit (process_event alloc engine))
process_event-exit_example = process_event-exit exit (process_event alloc engine) refl

fresh : engine.injection_state 7 9 ≡ none
unfolding new_correlation_engine
fresh = refl

injection_chain_example :
    ((process_event remote_thread (process_event alloc engine)).alerts
      ≡ sent
          (chain_alert (process_event alloc engine).job_id 7 (codes "CreateRemoteThread") 9 100 200)
          (process_event alloc engine))
    × ((process_event remote_thread (process_event alloc engine)).injection_state 7 9 ≡ none)
injection_chain_example =
    injection_chain 7 9 (omega arith) (omega arith) engine alloc remote_thread
      (codes "CreateRemoteThread") [] (new_correlation_engine-IsValid (codes "job") 8) fresh
      alloc_prep tt thread_exec

connect_dest : text_eq (build_dest_string connect) [] ≡ false
unfolding build_dest_string string_of lookup codes text_eq
connect_dest = refl

abbrev run_key : Text
run_key = codes "HKCU\\Software\\Microsoft\\Windows\\CurrentVersion\\Run"

abbrev key_write : Event
key_write = event registry_set 350 7 ((codes "key", str run_key) ∷ [])

connect_beacons_example :
    (process_event connect (process_event key_write engine)).alerts
    ≡ beaconed connect
        (build_dest_string connect)
        (marked_writes 7 (process_event key_write engine))
        (process_event key_write engine)
connect_beacons_example = connect_beacons connect (process_event key_write engine) refl

run_key_read : string_at "key" key_write.fields ≡ some run_key
unfolding string_at lookup codes text_eq
run_key_read = refl

run_key_persists :
    is_persistent_item registry (full_key run_key (string_of "value_name" key_write.fields)) ≡ true
unfolding is_persistent_item full_key string_of string_at lookup codes text_eq contains lower
run_key_persists = refl

detected_either_order_example :
    ((process_event connect (process_event key_write engine)).alerts
      ≡ sent
          (beacon_alert
            (process_event key_write engine).job_id
            7
            (build_dest_string connect)
            (aftermath_item 7 (process_event key_write engine))
            400)
          (process_event key_write engine))
    × ((process_event key_write (process_event connect engine)).alerts
        ≡ sent
            (persistence_alert
              (process_event connect engine).job_id
              7
              (full_key run_key (string_of "value_name" key_write.fields))
              ((process_event connect engine).net_conns 7)
              350)
            (process_event connect engine))
detected_either_order_example =
    detected_either_order engine key_write connect run_key refl run_key_read run_key_persists refl
      refl connect_dest

abbrev rc_local : Text
rc_local = codes "/etc/rc.local"

abbrev rc_write : Event
rc_write = event file_write 360 7 ((codes "path", str rc_local) ∷ [])

rc_read : string_at "path" rc_write.fields ≡ some rc_local
unfolding string_at lookup codes text_eq
rc_read = refl

rc_known : is_persistence file rc_local ≡ true
unfolding is_persistence codes contains lower
rc_known = refl

rc_unknown : is_persistent_item file rc_local ≡ false
unfolding is_persistent_item codes contains lower
rc_unknown = refl

clean : has_persisted 7 engine ≡ false
unfolding new_correlation_engine
clean = refl

abbrev label : Text
label = codes "xkjqzrmbvpwscftaeldoyn"
