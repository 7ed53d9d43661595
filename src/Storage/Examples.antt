-- ===== src/Storage/Examples.antt =====
-- Concrete events and a toy hash, which writes the text behind a byte.
use gasha_sandbox.Common.{ℕ, ◌≡◌, ◌≢◌, [], ◌∷◌, ◌++◌}
use gasha_sandbox.Common.Text.{Text, codes}
use gasha_sandbox.Storage.Events.{
  EventRow, save_all, verify_event_integrity, save_all-intact, is_tampered, is_tampered-shifted,
}

abbrev mac : Text → Text → Text
mac key text = 1 ∷ (key ++ text)

abbrev key : Text
key = 7 ∷ []

abbrev row : EventRow
row = record {
  id = 1;
  job_id = codes "job";
  timestamp = codes "2026-01-01T00:00:00Z";
  event_type = codes "file_write";
  pid = 7;
  tid = 0;
  category = codes "filesystem";
  data_text = codes "{}";
  severity = 1;
  hmac = [];
}

cons_nonempty : (x : ℕ) (t : Text) → x ∷ t ≢ []
cons_nonempty x t e = cc

save_all-intact_example :
    verify_event_integrity mac key (codes "job") (save_all mac key [] (row ∷ row ∷ [])) ≡ []
save_all-intact_example =
    save_all-intact mac key (cons_nonempty 7 []) (λ text. cons_nonempty 1 (key ++ text))
      (codes "job") (row ∷ row ∷ [])

is_tampered-shifted_example :
    is_tampered mac key
      (record row { category = codes "a" ++ b'|' ∷ codes "b"; data_text = codes "{}" })
    ≡ is_tampered mac key
        (record row { category = codes "a"; data_text = codes "b" ++ b'|' ∷ codes "{}"; tid = 9 })
is_tampered-shifted_example = is_tampered-shifted mac key row (codes "a") (codes "b") (codes "{}") 9
