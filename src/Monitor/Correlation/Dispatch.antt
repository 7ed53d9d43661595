-- ===== src/Monitor/Correlation/Dispatch.antt =====
-- `ProcessEvent`: a handler for each case of its `switch`, and `buildDestString`.
use gasha_sandbox.Common.{
  ℕ, ◌||◌, Option, none, some, [], ◌∷◌, ◌++◌, take, is_nil, update, ◌==◌, if◌then◌else◌,
}
use gasha_sandbox.Common.Text.{Text, codes, text_eq, lookup, decimal}
use gasha_sandbox.Monitor.Events.{
  EventType, process_create, process_exit, file_write, registry_set, network_connect, network_dns,
  api_call, thread_create, image_load, handle_create, handle_duplicate, powershell_exec, amsi_scan,
  wmi_activity, scheduled_task, service_install, Event, Value, int, float, string_at, string_of,
  bool_of, sev_high, sev_critical,
}
use gasha_sandbox.Monitor.Correlation.State.{
  ProcessKey, Engine, emit_alert, append_at, wmi_with_c2, wmi_subscription, wmi_method, task,
  task_with_c2, service, service_with_c2,
}
use gasha_sandbox.Monitor.Correlation.Nodes.{
  build_process_node, check_privilege_escalation, check_lolbin_rename, check_persistence_tool_spawn,
}
use gasha_sandbox.Monitor.Correlation.Injection.{
  extract_target_pid, check_process_injection_windowed,
}
use gasha_sandbox.Monitor.Correlation.Persistence.{
  registry, file, check_persistence_to_c2, check_c2_aftermath, check_reflective_injection,
  check_lsass_access,
}

abbrev pub with_port : Text → Option Value → Text
with_port ip (some (int port)) = if port == 0 then ip else ip ++ b':' ∷ decimal port
with_port ip (some (float port)) = ip ++ b':' ∷ decimal port
with_port ip _ = ip

abbrev pub ip_part : Option Text → Option Value → Text
ip_part none port = []
ip_part (some ip) port = with_port ip port

unfoldable pub build_dest_string : Event → Text
unfolding string_at string_of
build_dest_string ev =
    let dest = ip_part (string_at "dest_ip" ev.fields) (lookup (codes "dest_port") ev.fields) in
    let domain = string_of "domain" ev.fields in
    if text_eq domain []
    then dest
    else if text_eq dest []
    then domain
    else dest ++ codes " (" ++ domain ++ codes ")"

-- `processes[key] = node; pidToKey[pid] = key`
unfoldable pub add_process : Event → Engine → Engine
add_process ev ce = record ce {
  processes =
      update ce.processes ev.pid
        (update (ce.processes ev.pid) ev.timestamp (some (build_process_node ev)));
  pid_to_key =
      update ce.pid_to_key ev.pid (some (record { pid = ev.pid; spawn_time = ev.timestamp }));
}

unfoldable pub on_process_create : Event → Engine → Engine
on_process_create ev ce =
    let node = build_process_node ev in
    check_persistence_tool_spawn node ev.timestamp (
      check_lolbin_rename node ev.timestamp
        (check_privilege_escalation node ev.timestamp (add_process ev ce)))

abbrev pub delete_process : Option ProcessKey → ℕ → Engine → Engine
delete_process none pid ce = ce
delete_process (some key) pid ce = record ce {
  processes = update ce.processes key.pid (update (ce.processes key.pid) key.spawn_time none);
  pid_to_key = update ce.pid_to_key pid none;
}

-- The twelve `delete` calls on the maps by process id.
unfoldable pub forget : ℕ → Engine → Engine
forget pid ce = record ce {
  file_writes = update ce.file_writes pid [];
  reg_writes = update ce.reg_writes pid [];
  net_conns = update ce.net_conns pid [];
  api_calls = update ce.api_calls pid [];
  injection_state = update ce.injection_state pid (λ _. none);
  dll_loads = update ce.dll_loads pid [];
  dns_queries = update ce.dns_queries pid [];
  handle_access = update ce.handle_access pid [];
  script_blocks = update ce.script_blocks pid [];
  wmi_subscriptions = update ce.wmi_subscriptions pid [];
  scheduled_tasks = update ce.scheduled_tasks pid [];
  services_installed = update ce.services_installed pid [];
}

unfoldable pub on_process_exit : Event → Engine → Engine
on_process_exit ev ce = forget ev.pid (delete_process (ce.pid_to_key ev.pid) ev.pid ce)

unfoldable pub file_written : Option Text → Event → Engine → Engine
file_written none ev ce = ce
file_written (some path) ev ce =
    check_persistence_to_c2 ev.pid path file ev.timestamp
      (record ce { file_writes = append_at ce.file_writes ev.pid path })

unfoldable pub on_file_write : Event → Engine → Engine
on_file_write ev ce = file_written (string_at "path" ev.fields) ev ce

-- The value name is joined to the key by a backslash.
unfoldable pub full_key : Text → Text → Text
full_key key value_name = if text_eq value_name [] then key else key ++ 92 ∷ value_name

unfoldable pub key_set : Option Text → Event → Engine → Engine
key_set none ev ce = ce
key_set (some key) ev ce =
    let path = full_key key (string_of "value_name" ev.fields) in
    check_persistence_to_c2 ev.pid path registry ev.timestamp
      (record ce { reg_writes = append_at ce.reg_writes ev.pid path })

unfoldable pub on_registry_set : Event → Engine → Engine
on_registry_set ev ce = key_set (string_at "key" ev.fields) ev ce

unfoldable pub on_network_connect : Event → Engine → Engine
on_network_connect ev ce =
    let dest = build_dest_string ev in
    if text_eq dest []
    then ce
    else check_c2_aftermath ev.pid dest ev.timestamp
        (record ce { net_conns = append_at ce.net_conns ev.pid dest })

unfoldable pub on_api_call : Event → Engine → Engine
on_api_call ev ce =
    let api = string_of "api_name" ev.fields in
    if text_eq api []
    then ce
    else check_process_injection_windowed ev.pid api ev.fields ev.timestamp
        (record ce { api_calls = append_at ce.api_calls ev.pid api })

abbrev pub load_image : Event → Text → Engine → Engine
load_image ev image ce =
    if text_eq image [] then ce else record ce { dll_loads = append_at ce.dll_loads ev.pid image }

unfoldable pub on_image_load : Event → Engine → Engine
on_image_load ev ce =
    let image = string_of "image_name" ev.fields in
    if bool_of "reflective" ev.fields
    then check_reflective_injection ev.pid image ev.timestamp (load_image ev image ce)
    else load_image ev image ce

unfoldable pub on_thread_create : Event → Engine → Engine
on_thread_create ev ce =
    let target = extract_target_pid ev.fields in
    if target == 0 || target == ev.pid
    then ce
    else check_process_injection_windowed ev.pid (codes "CreateRemoteThread") ev.fields ev.timestamp
        ce

abbrev pub or_else : Text → Text → Text
or_else a b = if text_eq a [] then b else a

unfoldable pub on_network_dns : Event → Engine → Engine
on_network_dns ev ce =
    let query = or_else (string_of "dns_query" ev.fields) (string_of "domain" ev.fields) in
    if text_eq query []
    then ce
    else check_c2_aftermath ev.pid query ev.timestamp (record ce {
      dns_queries = append_at ce.dns_queries ev.pid query;
      net_conns = append_at ce.net_conns ev.pid query;
    })

unfoldable pub on_handle : Event → Engine → Engine
on_handle ev ce =
    let name = string_of "object_name" ev.fields in
    check_lsass_access ev.pid (string_of "object_type" ev.fields) name ev.timestamp (
      if text_eq name []
      then ce
      else record ce { handle_access = append_at ce.handle_access ev.pid name })

unfoldable pub on_script : Event → Engine → Engine
on_script ev ce =
    let script = string_of "script_block" ev.fields in
    if text_eq script []
    then ce
    else record ce { script_blocks = append_at ce.script_blocks ev.pid (take 256 script) }

unfoldable pub on_wmi : Event → Engine → Engine
on_wmi ev ce =
    let op = string_of "wmi_operation" ev.fields in
    let consumer = string_of "wmi_consumer" ev.fields in
    let query = string_of "wmi_query" ev.fields in
    let mitre = string_of "mitre_ttp" ev.fields in
    let name = or_else consumer query in
    let conns = ce.net_conns ev.pid in
    let ce' = record ce { wmi_subscriptions = append_at ce.wmi_subscriptions ev.pid name } in
    if text_eq op (codes "EventSubscription")
    then if is_nil conns
      then emit_alert ev.pid mitre (codes "WMI Event Subscription Created")
          (wmi_subscription ev.pid consumer query) sev_high ev.timestamp ce'
      else emit_alert ev.pid mitre (codes "WMI Persistence with C2 Connectivity")
          (wmi_with_c2 ev.pid name conns) sev_critical ev.timestamp ce'
    else if text_eq op (codes "MethodExecution")
    then emit_alert ev.pid (codes "T1047") (codes "WMI Method Execution")
        (wmi_method ev.pid (string_of "wmi_method" ev.fields)) sev_high ev.timestamp ce
    else ce

unfoldable pub on_scheduled_task : Event → Engine → Engine
on_scheduled_task ev ce =
    let op = string_of "task_operation" ev.fields in
    let name = string_of "task_name" ev.fields in
    let conns = ce.net_conns ev.pid in
    if text_eq op (codes "Registered") || text_eq op (codes "Updated")
    then emit_alert ev.pid (codes "T1053.005") (codes "Scheduled Task Persistence")
        (if is_nil conns then task ev.pid name else task_with_c2 ev.pid name conns)
        (if is_nil conns then sev_high else sev_critical) ev.timestamp
        (record ce { scheduled_tasks = append_at ce.scheduled_tasks ev.pid name })
    else ce

unfoldable pub on_service_install : Event → Engine → Engine
on_service_install ev ce =
    let name = string_of "service_name" ev.fields in
    let conns = ce.net_conns ev.pid in
    if text_eq name []
    then ce
    else emit_alert ev.pid (codes "T1543.003") (codes "Malicious Service Installation")
        (if is_nil conns
          then service ev.pid name (string_of "service_imagepath" ev.fields)
          else service_with_c2 ev.pid name conns)
        (if is_nil conns then sev_high else sev_critical) ev.timestamp
        (record ce { services_installed = append_at ce.services_installed ev.pid name })

-- The `switch` on the event's type.
unfoldable pub handle : EventType → Event → Engine → Engine
handle process_create ev ce = on_process_create ev ce
handle process_exit ev ce = on_process_exit ev ce
handle file_write ev ce = on_file_write ev ce
handle registry_set ev ce = on_registry_set ev ce
handle network_connect ev ce = on_network_connect ev ce
handle api_call ev ce = on_api_call ev ce
handle image_load ev ce = on_image_load ev ce
handle thread_create ev ce = on_thread_create ev ce
handle network_dns ev ce = on_network_dns ev ce
handle handle_create ev ce = on_handle ev ce
handle handle_duplicate ev ce = on_handle ev ce
handle powershell_exec ev ce = on_script ev ce
handle amsi_scan ev ce = on_script ev ce
handle wmi_activity ev ce = on_wmi ev ce
handle scheduled_task ev ce = on_scheduled_task ev ce
handle service_install ev ce = on_service_install ev ce
handle _ ev ce = ce

unfoldable pub process_event : Event → Engine → Engine
process_event ev ce = handle ev.event_type ev ce
