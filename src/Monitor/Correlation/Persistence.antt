-- ===== src/Monitor/Correlation/Persistence.antt =====
-- `checkPersistenceToC2`, `checkC2Aftermath` and the single-event checks.
use gasha_sandbox.Common.{ℕ, Bool, ◌&&◌, ◌||◌, not, List, [], ◌∷◌, is_nil, if◌then◌else◌}
use gasha_sandbox.Common.Text.{Text, codes, text_eq, lower, contains}
use gasha_sandbox.Monitor.Events.{sev_high, sev_critical}
use gasha_sandbox.Monitor.Correlation.State.{
  alert_if, Engine, emit_alert, persistence_with_c2, connected_after, reflective_load, handle_to,
}

-- The texts that `objType` takes.
pub data ObjectType : Type 0 where
  registry file : ObjectType

unfoldable pub is_persistence : ObjectType → Text → Bool
is_persistence registry path =
    let p = lower path in
    contains p (codes "\\run")
    || contains p (codes "\\runonce")
    || contains p (codes "\\currentversion\\services")
    || contains p (codes "\\taskcache\\")
is_persistence file path =
    let p = lower path in
    contains p (codes "\\startup\\")
    || contains p (codes "/etc/cron")
    || contains p (codes "/etc/systemd/system")
    || contains p (codes "/etc/rc.local")
    || contains p (codes "/.bashrc")
    || contains p (codes "/.profile")
    || contains p (codes "/etc/profile")

unfoldable pub check_persistence_to_c2 : ℕ → Text → ObjectType → ℕ → Engine → Engine
check_persistence_to_c2 pid path kind t ce =
    alert_if (is_persistence kind path && not (is_nil (ce.net_conns pid))) pid (codes "T1547")
      (codes "Persistence + Outbound C2") (persistence_with_c2 pid path (ce.net_conns pid)) sev_high
      t ce

-- The tests of the two loops of `checkC2Aftermath`.
unfoldable pub is_persistent_item : ObjectType → Text → Bool
is_persistent_item registry path =
    let p = lower path in
    contains p (codes "\\run")
    || contains p (codes "\\runonce")
    || contains p (codes "\\currentversion\\services")
is_persistent_item file path =
    let p = lower path in
    contains p (codes "\\startup\\")
    || contains p (codes "/etc/cron")
    || contains p (codes "/etc/systemd/system")
    || contains p (codes "/.bashrc")
    || contains p (codes "/.profile")

-- The first item that the test passes, or the empty text.
unfoldable pub first_item : ObjectType → List Text → Text
first_item kind [] = []
first_item kind (p ∷ ps) =
    let rest = first_item kind ps in if is_persistent_item kind p then p else rest

unfoldable pub aftermath_item : ℕ → Engine → Text
unfolding first_item
aftermath_item pid ce =
    let reg = first_item registry (ce.reg_writes pid) in
    if text_eq reg [] then first_item file (ce.file_writes pid) else reg

unfoldable pub check_c2_aftermath : ℕ → Text → ℕ → Engine → Engine
check_c2_aftermath pid dest t ce =
    let item = aftermath_item pid ce in
    alert_if (not (text_eq item [])) pid (codes "T1071.001")
      (codes "C2 Beaconing from Persistent Process") (connected_after pid dest item) sev_critical t
      ce

unfoldable pub check_reflective_injection : ℕ → Text → ℕ → Engine → Engine
check_reflective_injection pid image t ce =
    emit_alert pid (codes "T1055.002") (codes "Reflective DLL Injection")
      (reflective_load pid image) sev_critical t ce

unfoldable pub check_lsass_access : ℕ → Text → Text → ℕ → Engine → Engine
check_lsass_access pid object_type object_name t ce =
    alert_if (contains (lower object_name) (codes "lsass")) pid (codes "T1003.001")
      (codes "LSASS Handle Access") (handle_to pid object_type object_name) sev_critical t ce
