-- ===== src/Rules/Severity.antt =====
-- pkg/rules/yara_loader.go: the names of severities in rule files.
use gasha_sandbox.Common.{[], ◌∷◌, if◌then◌else◌}
use gasha_sandbox.Common.Text.{Text, codes, text_eq, lower, member}

unfoldable pub normalise_severity : Text → Text
normalise_severity s =
    let l = lower s in
    if member l (codes "crit" ∷ codes "critical" ∷ [])
    then codes "critical"
    else if text_eq l (codes "high")
    then codes "high"
    else if member l (codes "med" ∷ codes "medium" ∷ [])
    then codes "medium"
    else if text_eq l (codes "low")
    then codes "low"
    else codes "informational"
