-- ===== src/Orchestrator/Policy.antt =====
-- pkg/orchestrator/policy.go: `GetProfileForFile`, and the timeout of `executeJob`.
use gasha_sandbox.Common.{
  ℕ, ◌+◌, ◌≤◌, ◌≡◌, refl, ap, Bool, true, false, ◌&&◌, ◌||◌, List, [], ◌∷◌, ◌==◌, arith,
  if◌then◌else◌,
}
use gasha_sandbox.Common.Text.{Text, codes, text_eq, lower, ext}
use gasha_sandbox.Common.Ints.{ℤ, pos, is_positive}

pub record Profile : Type 0 where
  pub name : Text
  pub launch_path : Text
  pub launch_args : List Text
  pub timeout_sec : ℤ
  pub enable_hooks : Bool

abbrev profile : Text → Text → List Text → ℕ → Profile
profile name path args timeout = record {
  name = name;
  launch_path = path;
  launch_args = args;
  timeout_sec = pos timeout;
  enable_hooks = true;
}

abbrev dll_profile : Text → Profile
dll_profile path =
    profile (codes "DLL Loader Profile") (codes "rundll32.exe") (path ∷ codes ",#1" ∷ []) 60

abbrev script_profile : Text → Profile
script_profile path =
    profile (codes "PowerShell Script Profile") (codes "powershell.exe")
      (codes "-NoProfile" ∷ codes "-ExecutionPolicy" ∷ codes "Bypass" ∷ codes "-File" ∷ path ∷ [])
      90

abbrev batch_profile : Text → Profile
batch_profile path =
    profile (codes "Batch Script Profile") (codes "cmd.exe") (codes "/c" ∷ path ∷ []) 60

abbrev executable_profile : Text → Profile
executable_profile path = profile (codes "Standard Executable Profile") path [] 120

abbrev choose : Text → Bool → Bool → Bool → Profile
choose path is_dll is_script is_batch =
    if is_dll
    then dll_profile path
    else if is_script
    then script_profile path
    else if is_batch
    then batch_profile path
    else executable_profile path

unfoldable pub get_profile_for_file : Text → Profile
get_profile_for_file file_path =
    let e = lower (ext file_path) in
    choose file_path (text_eq e (codes ".dll")) (text_eq e (codes ".ps1"))
      (text_eq e (codes ".bat") || text_eq e (codes ".cmd"))

abbrev is_zero : ℤ → Bool
is_zero (pos n) = n == 0
is_zero _ = false

-- The override of `executeJob` by `DefaultTimeoutSeconds`.
unfoldable pub timeout_of : ℤ → Profile → ℤ
timeout_of default_timeout p =
    if is_positive default_timeout && is_zero p.timeout_sec then default_timeout else p.timeout_sec

-- The timeout of the profile is 60 to 120 seconds, and no configuration changes it.
pub record IsSettled (default_timeout : ℤ) (p : Profile) : Type 0 where
  pub kept : timeout_of default_timeout p ≡ p.timeout_sec
  pub extra : ℕ
  pub value : p.timeout_sec ≡ pos (60 + extra)
  pub bound : extra ≤ 60

not_overridden :
    (d : ℤ) (p : Profile) (n : ℕ) → p.timeout_sec ≡ pos (60 + n) → timeout_of d p ≡ p.timeout_sec
unfolding timeout_of
not_overridden d p n e = go p.timeout_sec (is_positive d) e
  where
    go : (t : ℤ) (b : Bool) → t ≡ pos (60 + n) → (if b && is_zero t then d else t) ≡ t
    go t true e = rw e (ap (λ c. if c then d else pos (60 + n)) not_zero)
      where
        not_zero : (60 + n == 0) ≡ false
        not_zero = ground arith
    go t false e = refl

IsSettled-timeout_sec :
    (d : ℤ) (p : Profile) (n : ℕ) → p.timeout_sec ≡ pos (60 + n) → n ≤ 60 → IsSettled d p
IsSettled-timeout_sec d p n e h = record {
  kept = not_overridden d p n e;
  extra = n;
  value = e;
  bound = h;
}

choose-IsSettled : (d : ℤ) (path : Text) (a b c : Bool) → IsSettled d (choose path a b c)
choose-IsSettled d path true b c = IsSettled-timeout_sec d (dll_profile path) 0 refl (omega arith)
choose-IsSettled d path false true c =
    IsSettled-timeout_sec d (script_profile path) 30 refl (omega arith)
choose-IsSettled d path false false true =
    IsSettled-timeout_sec d (batch_profile path) 0 refl (omega arith)
choose-IsSettled d path false false false =
    IsSettled-timeout_sec d (executable_profile path) 60 refl (omega arith)

-- Whatever the configured default timeout, a job runs with the timeout of its profile, which is
-- between 60 and 120 seconds.
pub get_profile_for_file-IsSettled :
    (d : ℤ) (file_path : Text) → IsSettled d (get_profile_for_file file_path)
unfolding get_profile_for_file
get_profile_for_file-IsSettled d f =
    let e = lower (ext f) in
    choose-IsSettled d f (text_eq e (codes ".dll")) (text_eq e (codes ".ps1"))
      (text_eq e (codes ".bat") || text_eq e (codes ".cmd"))
