-- ===== src/Monitor/Correlation/Notes/Handlers.antt =====
-- The handlers that write lists of the event's process and raise alerts.
use gasha_sandbox.Common.{refl, Option, none, some, [], arith, ◌||◌, inl, inr, Bool-cases, is_nil}
use gasha_sandbox.Common.Text.{Text, codes, text_eq}
use gasha_sandbox.Monitor.Events.{Event, string_at, bool_of, string_of}
use gasha_sandbox.Monitor.Correlation.State.{Engine, append_at}
use gasha_sandbox.Monitor.Correlation.Persistence.{registry, file}
use gasha_sandbox.Monitor.Correlation.Dispatch.{
  on_file_write, file_written, key_set, on_registry_set, on_network_connect, load_image,
  on_image_load, on_network_dns, on_handle, on_script, on_wmi, on_scheduled_task,
  on_service_install, build_dest_string, or_else,
}
use gasha_sandbox.Monitor.Correlation.Raises.{
  Raises-refl, Raises-emit, Raises-if, check_persistence_to_c2-Raises, check_c2_aftermath-Raises,
  check_reflective_injection-Raises, check_lsass_access-Raises,
}
use gasha_sandbox.Monitor.Correlation.Notes.{
  Notes, Notes-refl, Notes-Raises, Notes-trans_Raises, noted,
}

module _ (ev : Event) (ce : Engine) where
  file_written-Notes : (path : Option Text) → Notes ev.pid ev.timestamp ce (file_written path ev ce)
  unfolding file_written
  file_written-Notes none = Notes-refl ce
  file_written-Notes (some path) =
      Notes-trans_Raises (noted ev ce _ (λ q h. ground arith) refl refl refl refl refl refl)
        (check_persistence_to_c2-Raises ev.pid ev.timestamp _ path file)

  key_set-Notes : (key : Option Text) → Notes ev.pid ev.timestamp ce (key_set key ev ce)
  unfolding key_set
  key_set-Notes none = Notes-refl ce
  key_set-Notes (some key) =
      Notes-trans_Raises (noted ev ce _ (λ q h. ground arith) refl refl refl refl refl refl)
        (check_persistence_to_c2-Raises ev.pid ev.timestamp _ _ registry)

  pub on_network_connect-Notes : Notes ev.pid ev.timestamp ce (on_network_connect ev ce)
  unfolding on_network_connect
  on_network_connect-Notes = elim (Bool-cases (text_eq (build_dest_string ev) [])) [
    | inl e ↦ rw e (Notes-refl ce)
    | inr e ↦ rw e (
        Notes-trans_Raises (noted ev ce _ (λ q h. ground arith) refl refl refl refl refl refl)
          (check_c2_aftermath-Raises ev.pid ev.timestamp _ (build_dest_string ev)))
  ]

  pub on_file_write-Notes : Notes ev.pid ev.timestamp ce (on_file_write ev ce)
  unfolding on_file_write
  on_file_write-Notes = file_written-Notes (string_at "path" ev.fields)

  pub on_registry_set-Notes : Notes ev.pid ev.timestamp ce (on_registry_set ev ce)
  unfolding on_registry_set
  on_registry_set-Notes = key_set-Notes (string_at "key" ev.fields)

  load_image-Notes : (image : Text) → Notes ev.pid ev.timestamp ce (load_image ev image ce)
  load_image-Notes image = elim (Bool-cases (text_eq image [])) [
    | inl e ↦ rw e (Notes-refl ce)
    | inr e ↦ rw e (noted ev ce _ (λ q h. ground arith) refl refl refl refl refl refl)
  ]

  pub on_image_load-Notes : Notes ev.pid ev.timestamp ce (on_image_load ev ce)
  unfolding on_image_load
  on_image_load-Notes = elim (Bool-cases (bool_of "reflective" ev.fields)) [
    | inl e ↦ rw e (
        Notes-trans_Raises (load_image-Notes _)
          (check_reflective_injection-Raises ev.pid ev.timestamp _ _))
    | inr e ↦ rw e (load_image-Notes _)
  ]

  pub on_network_dns-Notes : Notes ev.pid ev.timestamp ce (on_network_dns ev ce)
  unfolding on_network_dns
  on_network_dns-Notes =
      elim (Bool-cases
        (text_eq (or_else (string_of "dns_query" ev.fields) (string_of "domain" ev.fields)) [])) [
          | inl e ↦ rw e (Notes-refl ce)
          | inr e ↦ rw e (
              Notes-trans_Raises (noted ev ce _ (λ q h. ground arith) refl refl refl refl refl refl)
                (check_c2_aftermath-Raises ev.pid ev.timestamp _ _))
        ]

  pub on_handle-Notes : Notes ev.pid ev.timestamp ce (on_handle ev ce)
  unfolding on_handle
  on_handle-Notes = elim (Bool-cases (text_eq (string_of "object_name" ev.fields) [])) [
    | inl e ↦ rw e (Notes-Raises (check_lsass_access-Raises ev.pid ev.timestamp ce _ _))
    | inr e ↦ rw e (
        Notes-trans_Raises (noted ev ce _ (λ q h. ground arith) refl refl refl refl refl refl)
          (check_lsass_access-Raises ev.pid ev.timestamp _ _ _))
  ]

  pub on_script-Notes : Notes ev.pid ev.timestamp ce (on_script ev ce)
  unfolding on_script
  on_script-Notes = elim (Bool-cases (text_eq (string_of "script_block" ev.fields) [])) [
    | inl e ↦ rw e (Notes-refl ce)
    | inr e ↦ rw e (noted ev ce _ (λ q h. ground arith) refl refl refl refl refl refl)
  ]

  pub on_service_install-Notes : Notes ev.pid ev.timestamp ce (on_service_install ev ce)
  unfolding on_service_install
  on_service_install-Notes = elim (Bool-cases (text_eq (string_of "service_name" ev.fields) [])) [
    | inl e ↦ rw e (Notes-refl ce)
    | inr e ↦ rw e (
        Notes-trans_Raises (noted ev ce _ (λ q h. ground arith) refl refl refl refl refl refl)
          (Raises-emit _ _ _ _ _))
  ]

  pub on_scheduled_task-Notes : Notes ev.pid ev.timestamp ce (on_scheduled_task ev ce)
  unfolding on_scheduled_task
  on_scheduled_task-Notes =
      elim (Bool-cases (
        text_eq (string_of "task_operation" ev.fields) (codes "Registered")
        || text_eq (string_of "task_operation" ev.fields) (codes "Updated"))) [
          | inr e ↦ rw e (Notes-refl ce)
          | inl e ↦ rw e (
              Notes-trans_Raises (noted ev ce _ (λ q h. ground arith) refl refl refl refl refl refl)
                (Raises-emit _ _ _ _ _))
        ]

  pub on_wmi-Notes : Notes ev.pid ev.timestamp ce (on_wmi ev ce)
  unfolding on_wmi
  on_wmi-Notes =
      elim (Bool-cases
        (text_eq (string_of "wmi_operation" ev.fields) (codes "EventSubscription"))) [
          | inl e ↦ rw e (
              Notes-trans_Raises
                (noted ev ce
                  (record ce {
                    wmi_subscriptions = append_at ce.wmi_subscriptions ev.pid (
                        or_else (string_of "wmi_consumer" ev.fields)
                          (string_of "wmi_query" ev.fields));
                  })
                  (λ q h. ground arith) refl refl refl refl refl refl)
                (Raises-if (is_nil (ce.net_conns ev.pid)) (Raises-emit _ _ _ _ _)
                  (Raises-emit _ _ _ _ _)))
          | inr e ↦ rw e (Notes-Raises (Raises-if _ (Raises-emit _ _ _ _ _) (Raises-refl ce)))
        ]
