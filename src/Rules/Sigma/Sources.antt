-- ===== src/Rules/Sigma/Sources.antt =====
-- pkg/rules/sigma_loader.go: the tables from log sources to events and the field aliases.
use gasha_sandbox.Common.{ℕ, List, [], ◌∷◌, ◌++◌}
use gasha_sandbox.Common.Text.{Text, codes}

unfoldable logsource_category_map_first : List (Text × List Text)
logsource_category_map_first =
    (codes "process_creation", codes "process" ∷ codes "process_create" ∷ [])
    ∷ (codes "process", codes "process" ∷ [])
    ∷ (codes "process_access", codes "process" ∷ codes "process_access" ∷ [])
    ∷ (codes "process_termination", codes "process" ∷ codes "process_exit" ∷ [])
    ∷ (codes "process_tampering", codes "memory" ∷ codes "thread_create" ∷ [])
    ∷ (codes "file", codes "filesystem" ∷ [])
    ∷ (codes "file_event", codes "filesystem" ∷ codes "file_write" ∷ [])
    ∷ (codes "file_change", codes "filesystem" ∷ codes "file_write" ∷ [])
    ∷ (codes "file_delete", codes "filesystem" ∷ codes "file_delete" ∷ [])
    ∷ (codes "file_access", codes "filesystem" ∷ codes "file_write" ∷ [])
    ∷ (codes "file_executable_detected", codes "filesystem" ∷ codes "file_write" ∷ [])
    ∷ (codes "file_rename", codes "filesystem" ∷ codes "file_write" ∷ [])
    ∷ (codes "create_stream_hash", codes "filesystem" ∷ codes "file_write" ∷ [])
    ∷ (codes "pipe_created", codes "filesystem" ∷ codes "file_write" ∷ [])
    ∷ (codes "registry", codes "registry" ∷ [])
    ∷ (codes "registry_event", codes "registry" ∷ codes "registry_set" ∷ [])
    ∷ (codes "registry_add", codes "registry" ∷ codes "registry_set" ∷ [])
    ∷ (codes "registry_set", codes "registry" ∷ codes "registry_set" ∷ [])
    ∷ (codes "registry_delete", codes "registry" ∷ codes "registry_delete" ∷ [])
    ∷ (codes "network", codes "network" ∷ [])
    ∷ (codes "network_connection", codes "network" ∷ codes "network_connect" ∷ [])
    ∷ (codes "dns_query", codes "network" ∷ codes "network_dns" ∷ [])
    ∷ (codes "dns", codes "network" ∷ codes "network_dns" ∷ [])
    ∷ (codes "firewall", codes "network" ∷ [])
    ∷ (codes "proxy", codes "network" ∷ [])
    ∷ (codes "webserver", codes "network" ∷ [])
    ∷ (codes "ps_script", codes "script" ∷ codes "powershell_exec" ∷ [])
    ∷ (codes "ps_module", codes "script" ∷ codes "powershell_exec" ∷ [])
    ∷ (codes "ps_classic_start", codes "script" ∷ codes "powershell_exec" ∷ [])
    ∷ (codes "ps_classic_provider_start", codes "script" ∷ codes "powershell_exec" ∷ [])
    ∷ (codes "powershell", codes "script" ∷ codes "powershell_exec" ∷ [])
    ∷ (codes "image_load", codes "memory" ∷ codes "image_load" ∷ [])
    ∷ (codes "driver_load", codes "memory" ∷ codes "image_load" ∷ [])
    ∷ (codes "create_remote_thread", codes "memory" ∷ codes "thread_create" ∷ [])
    ∷ (codes "raw_access_thread", codes "api" ∷ codes "api_call" ∷ [])
    ∷ (codes "wmi_event", codes "persistence" ∷ codes "wmi_activity" ∷ [])
    ∷ (codes "scheduled_task", codes "persistence" ∷ codes "scheduled_task" ∷ [])
    ∷ (codes "service_install", codes "persistence" ∷ codes "service_install" ∷ [])
    ∷ (codes "sysmon_error", codes "api" ∷ [])
    ∷ (codes "sysmon_status", codes "api" ∷ [])
    ∷ []

unfoldable logsource_category_map_second : List (Text × List Text)
logsource_category_map_second =
    (codes "antivirus", codes "filesystem" ∷ [])
    ∷ (codes "application", codes "api" ∷ [])
    ∷ (codes "database", codes "api" ∷ [])
    ∷ (codes "windows", codes "process" ∷ codes "api" ∷ codes "registry" ∷ [])
    ∷ (codes "linux", codes "process" ∷ [])
    ∷ (codes "macos", codes "process" ∷ [])
    ∷ (codes "zeek", codes "network" ∷ [])
    ∷ (codes "cisco", codes "network" ∷ [])
    ∷ (codes "fortigate", codes "network" ∷ [])
    ∷ (codes "juniper", codes "network" ∷ [])
    ∷ (codes "huawei", codes "network" ∷ [])
    ∷ (codes "rpc_firewall", codes "network" ∷ [])
    ∷ (codes "aws", codes "network" ∷ [])
    ∷ (codes "azure", codes "network" ∷ [])
    ∷ (codes "gcp", codes "network" ∷ [])
    ∷ (codes "kubernetes", codes "process" ∷ [])
    ∷ (codes "okta", codes "network" ∷ [])
    ∷ (codes "onelogin", codes "network" ∷ [])
    ∷ (codes "m365", codes "network" ∷ [])
    ∷ (codes "github", codes "network" ∷ [])
    ∷ (codes "bitbucket", codes "network" ∷ [])
    ∷ (codes "django", codes "api" ∷ [])
    ∷ (codes "python", codes "script" ∷ [])
    ∷ (codes "ruby_on_rails", codes "api" ∷ [])
    ∷ (codes "spring", codes "api" ∷ [])
    ∷ (codes "velocity", codes "api" ∷ [])
    ∷ (codes "nodejs", codes "script" ∷ [])
    ∷ (codes "jvm", codes "api" ∷ [])
    ∷ (codes "sql", codes "api" ∷ [])
    ∷ (codes "security", codes "process" ∷ codes "api" ∷ [])
    ∷ (codes "system", codes "api" ∷ codes "registry" ∷ [])
    ∷ (
      codes "sysmon",
      codes "process"
          ∷ codes "filesystem"
          ∷ codes "registry"
          ∷ codes "network"
          ∷ codes "memory"
          ∷ [],
    )
    ∷ (codes "applocker", codes "filesystem" ∷ [])
    ∷ (codes "windefend", codes "filesystem" ∷ [])
    ∷ (codes "codeintegrity", codes "memory" ∷ [])
    ∷ (codes "bits-client", codes "network" ∷ [])
    ∷ (codes "dns-server", codes "network" ∷ [])
    ∷ (codes "dns-client", codes "network" ∷ [])
    ∷ (codes "taskscheduler", codes "persistence" ∷ [])
    ∷ (codes "wmi", codes "persistence" ∷ [])
    ∷ []

unfoldable logsource_category_map_third : List (Text × List Text)
logsource_category_map_third =
    (codes "kerberos", codes "api" ∷ [])
    ∷ (codes "ldap", codes "api" ∷ [])
    ∷ (codes "rdp", codes "network" ∷ [])
    ∷ (codes "smb", codes "network" ∷ [])
    ∷ (codes "smbclient", codes "network" ∷ [])
    ∷ (codes "iis", codes "network" ∷ [])
    ∷ (codes "exchange", codes "api" ∷ [])
    ∷ (codes "nginx", codes "network" ∷ [])
    ∷ (codes "apache", codes "network" ∷ [])
    ∷ (codes "openssh", codes "process" ∷ [])
    ∷ (codes "sshd", codes "process" ∷ [])
    ∷ (codes "ftp", codes "network" ∷ [])
    ∷ (codes "dhcp", codes "network" ∷ [])
    ∷ (codes "ntlm", codes "api" ∷ [])
    ∷ []

unfoldable pub logsource_category_map : List (Text × List Text)
unfolding logsource_category_map_first logsource_category_map_second logsource_category_map_third
logsource_category_map =
    logsource_category_map_first ++ (logsource_category_map_second ++ logsource_category_map_third)

-- `logsourceEventIDMap["security"]`
unfoldable security_event_ids : List ℕ
security_event_ids =
    4624 ∷ 4625 ∷ 4634 ∷ 4648 ∷ 4672 ∷ 4688 ∷ 4697 ∷ 4698 ∷ 4702 ∷ 4719 ∷ 4720 ∷ 4728 ∷ 4732 ∷ 4735
    ∷ 4740 ∷ 4754 ∷ 4768 ∷ 4769 ∷ 4771 ∷ 4776 ∷ 4778 ∷ 4779 ∷ 4781 ∷ 4793 ∷ 4798 ∷ 4799 ∷ 4800
    ∷ 4801 ∷ 4802 ∷ 4803 ∷ 4868 ∷ 4870 ∷ 4872 ∷ 4874 ∷ 4876 ∷ 4882 ∷ 4883 ∷ 4898 ∷ 4902 ∷ 4907
    ∷ 4908 ∷ 4910 ∷ 4912 ∷ 4913 ∷ 4928 ∷ 4929 ∷ 4930 ∷ 4931 ∷ 4932 ∷ 4933 ∷ 4944 ∷ 4946 ∷ 4947
    ∷ 4948 ∷ 4951 ∷ 4953 ∷ 4954 ∷ 4956 ∷ 4957 ∷ 4958 ∷ 4960 ∷ 4964 ∷ 4971 ∷ 4974 ∷ 4976 ∷ 4977
    ∷ 4978 ∷ 4979 ∷ 4983 ∷ 4984 ∷ 4985 ∷ 5027 ∷ 5028 ∷ 5029 ∷ 5030 ∷ 5031 ∷ 5032 ∷ 5033 ∷ 5034
    ∷ 5035 ∷ 5037 ∷ 5038 ∷ 5039 ∷ 5040 ∷ 5041 ∷ 5049 ∷ 5050 ∷ 5051 ∷ 5052 ∷ 5056 ∷ 5057 ∷ 5058
    ∷ 5059 ∷ 5060 ∷ 5061 ∷ 5062 ∷ 5063 ∷ 5064 ∷ 5065 ∷ 5066 ∷ 5067 ∷ 5068 ∷ 5069 ∷ 5070 ∷ 5071
    ∷ 5072 ∷ 5073 ∷ 5074 ∷ 5075 ∷ 5076 ∷ 5077 ∷ 5078 ∷ 5079 ∷ 5080 ∷ 5081 ∷ 5082 ∷ 5083 ∷ 5084
    ∷ 5085 ∷ 5086 ∷ 5087 ∷ 5088 ∷ 5089 ∷ 5090 ∷ 5091 ∷ 5092 ∷ 5093 ∷ 5094 ∷ 5095 ∷ 5096 ∷ 5097
    ∷ 5098 ∷ 5099 ∷ 5100 ∷ 5101 ∷ 5102 ∷ 5103 ∷ 5104 ∷ 5105 ∷ 5106 ∷ 5107 ∷ 5136 ∷ 5137 ∷ 5138
    ∷ 5139 ∷ 5140 ∷ 5141 ∷ 5142 ∷ 5143 ∷ 5144 ∷ 5145 ∷ 5146 ∷ 5147 ∷ 5148 ∷ 5149 ∷ 5150 ∷ 5151
    ∷ 5152 ∷ 5153 ∷ 5154 ∷ 5155 ∷ 5156 ∷ 5157 ∷ 5158 ∷ 5159 ∷ 5160 ∷ 5161 ∷ 5162 ∷ 5163 ∷ 5164
    ∷ 5165 ∷ 5166 ∷ 5167 ∷ 5168 ∷ 5169 ∷ 5170 ∷ 5171 ∷ 5172 ∷ 5173 ∷ 5174 ∷ 5175 ∷ 5176 ∷ 5177
    ∷ 5178 ∷ 5179 ∷ 5180 ∷ 5181 ∷ 5182 ∷ 5183 ∷ 5184 ∷ 5185 ∷ 5186 ∷ 5187 ∷ 5188 ∷ 5189 ∷ 5190
    ∷ 5191 ∷ 5192 ∷ 5193 ∷ 5194 ∷ 5195 ∷ 5196 ∷ 5197 ∷ 5198 ∷ 5199 ∷ 5200 ∷ 5201 ∷ 5202 ∷ 5203
    ∷ 5377 ∷ 5378 ∷ 5379 ∷ 5380 ∷ 5381 ∷ 5382 ∷ 5440 ∷ 5442 ∷ 5444 ∷ 5446 ∷ 5447 ∷ 5449 ∷ 5450
    ∷ 5451 ∷ 5452 ∷ 5453 ∷ 5454 ∷ 5455 ∷ 5456 ∷ 5457 ∷ 5458 ∷ 5459 ∷ 5460 ∷ 5461 ∷ 5462 ∷ 5463
    ∷ 5464 ∷ 5465 ∷ 5466 ∷ 5467 ∷ 5468 ∷ 5469 ∷ 5470 ∷ 5471 ∷ 5472 ∷ 5473 ∷ 5474 ∷ 5475 ∷ 5476
    ∷ 5477 ∷ 5478 ∷ 5480 ∷ 5481 ∷ 5482 ∷ 5483 ∷ 5484 ∷ 5485 ∷ 6144 ∷ 6145 ∷ 6272 ∷ 6273 ∷ 6274
    ∷ 6275 ∷ 6276 ∷ 6277 ∷ 6278 ∷ []

unfoldable pub logsource_event_id_map : List (Text × List ℕ)
unfolding security_event_ids
logsource_event_id_map =
    (codes "process_creation", 1 ∷ [])
    ∷ (codes "process_termination", 5 ∷ [])
    ∷ (codes "process_access", 10 ∷ [])
    ∷ (codes "network_connection", 3 ∷ [])
    ∷ (codes "dns_query", 22 ∷ [])
    ∷ (codes "dns", 22 ∷ [])
    ∷ (codes "file_event", 11 ∷ [])
    ∷ (codes "file_delete", 23 ∷ [])
    ∷ (codes "file_rename", 2 ∷ [])
    ∷ (codes "file_change", 11 ∷ [])
    ∷ (codes "file_executable_detected", 29 ∷ [])
    ∷ (codes "create_stream_hash", 15 ∷ [])
    ∷ (codes "registry_set", 13 ∷ [])
    ∷ (codes "registry_delete", 14 ∷ [])
    ∷ (codes "image_load", 7 ∷ [])
    ∷ (codes "create_remote_thread", 8 ∷ [])
    ∷ (codes "driver_load", 7 ∷ [])
    ∷ (codes "pipe_created", 17 ∷ [])
    ∷ (codes "raw_access_thread", 24 ∷ [])
    ∷ (codes "process_tampering", 8 ∷ [])
    ∷ (codes "wmi_event", 5860 ∷ 5861 ∷ 11 ∷ [])
    ∷ (codes "scheduled_task", 106 ∷ 140 ∷ 200 ∷ 141 ∷ [])
    ∷ (codes "service_install", 7045 ∷ 4697 ∷ [])
    ∷ (codes "powershell", 4104 ∷ 4103 ∷ [])
    ∷ (codes "ps_script", 4104 ∷ 4103 ∷ [])
    ∷ (codes "ps_module", 4103 ∷ [])
    ∷ (codes "ps_classic_start", 400 ∷ 600 ∷ [])
    ∷ (codes "ps_classic_provider_start", 400 ∷ 600 ∷ [])
    ∷ (codes "sysmon_error", 255 ∷ [])
    ∷ (codes "sysmon_status", 4 ∷ [])
    ∷ (codes "security", security_event_ids)
    ∷ (codes "system", 7030 ∷ 7031 ∷ 7032 ∷ 7034 ∷ 7036 ∷ 7040 ∷ 7045 ∷ 7049 ∷ [])
    ∷ []

unfoldable aliases_first : List (Text × Text)
aliases_first =
    (codes "commandline", codes "cmdline")
    ∷ (codes "image", codes "image_path")
    ∷ (codes "parentimage", codes "parent_image")
    ∷ (codes "parentcommandline", codes "parent_cmdline")
    ∷ (codes "targetfilename", codes "path")
    ∷ (codes "targetobject", codes "key")
    ∷ (codes "details", codes "value_data")
    ∷ (codes "query", codes "dns_query")
    ∷ (codes "destination.ip", codes "dest_ip")
    ∷ (codes "destination.port", codes "dest_port")
    ∷ (codes "destinationip", codes "dest_ip")
    ∷ (codes "destinationport", codes "dest_port")
    ∷ (codes "destinationhostname", codes "domain")
    ∷ (codes "sourceip", codes "src_ip")
    ∷ (codes "sourceport", codes "src_port")
    ∷ (codes "scriptblocktext", codes "script_block")
    ∷ (codes "objectname", codes "object_name")
    ∷ (codes "objecttype", codes "object_type")
    ∷ (codes "sha256", codes "sha256")
    ∷ (codes "md5", codes "md5")
    ∷ (codes "hashes", codes "sha256")
    ∷ (codes "integritylevel", codes "integrity_level")
    ∷ (codes "user", codes "user")
    ∷ (codes "imageloaded", codes "image_name")
    ∷ (codes "queryname", codes "dns_query")
    ∷ (codes "originalfilename", codes "original_filename")
    ∷ (codes "processguid", codes "process_guid")
    ∷ (codes "parentprocessguid", codes "parent_process_guid")
    ∷ (codes "logonid", codes "logon_id")
    ∷ (codes "sourceimage", codes "source_image")
    ∷ (codes "targetimage", codes "target_image")
    ∷ (codes "servicefilename", codes "service_file")
    ∷ (codes "servicename", codes "service_name")
    ∷ (codes "taskname", codes "task_name")
    ∷ (codes "usercontext", codes "user_context")
    ∷ (codes "wmi_query", codes "wmi_query")
    ∷ (codes "wmi_consumer", codes "wmi_consumer")
    ∷ (codes "grantedaccess", codes "access_mask")
    ∷ (codes "calltrace", codes "call_stack")
    ∷ (codes "initiated", codes "outbound")
    ∷ []

unfoldable aliases_second : List (Text × Text)
aliases_second =
    (codes "imagepath", codes "service_imagepath") ∷ (codes "imphash", codes "imphash") ∷ []

unfoldable pub aliases : List (Text × Text)
unfolding aliases_first aliases_second
aliases = aliases_first ++ aliases_second
