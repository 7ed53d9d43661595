-- ===== src/Storage/Events.antt =====
-- pkg/storage/sqlite.go: the table of events and its tamper evidence. The keyed hash, written in
-- hexadecimal, is a parameter `mac`; times and data enter as the texts that are stored.
use gasha_sandbox.Common.{
  ℕ, ◌≡◌, ◌≢◌, refl, ◌∙◌, Bool, false, ◌||◌, not, List, [], ◌∷◌, ◌++◌, if◌then◌else◌, is_nil,
  Bool-cases, inl, inr, append_assoc,
}
use gasha_sandbox.Common.Text.{Text, decimal, text_eq, text_eq_refl}

pub record EventRow : Type 0 where
  pub id : ℕ
  pub job_id : Text
  pub timestamp : Text
  pub event_type : Text
  pub pid : ℕ
  pub tid : ℕ
  pub category : Text
  pub data_text : Text
  pub severity : ℕ
  pub hmac : Text

-- `fmt.Sprintf("%s|%s|%s|%d|%s|%s|%d", …)`
unfoldable pub canonical : Text → Text → Text → ℕ → Text → Text → ℕ → Text
canonical job_id timestamp event_type pid category data_text severity =
    job_id
    ++ b'|'
      ∷ (timestamp
          ++ b'|'
            ∷ (event_type
                ++ b'|'
                  ∷ (decimal pid
                      ++ b'|' ∷ (category ++ b'|' ∷ (data_text ++ b'|' ∷ decimal severity)))))

unfoldable pub canonical_of : EventRow → Text
unfolding canonical
canonical_of r = canonical r.job_id r.timestamp r.event_type r.pid r.category r.data_text r.severity

-- Without a key there is no hash.
unfoldable pub compute_event_hmac : (Text → Text → Text) → Text → EventRow → Text
unfolding canonical_of
compute_event_hmac mac key r = if is_nil key then [] else mac key (canonical_of r)

-- The row that `SaveEvent` inserts.
unfoldable pub save_event : (Text → Text → Text) → Text → List EventRow → EventRow → List EventRow
unfolding compute_event_hmac
save_event mac key rows r = rows ++ record r { hmac = compute_event_hmac mac key r } ∷ []

unfoldable pub is_tampered : (Text → Text → Text) → Text → EventRow → Bool
unfolding compute_event_hmac
is_tampered mac key r = is_nil r.hmac || not (text_eq (compute_event_hmac mac key r) r.hmac)

-- The ids of the rows of a job that do not verify, in their order.
unfoldable pub verify_event_integrity : (Text → Text → Text) → Text → Text → List EventRow → List ℕ
unfolding is_tampered
verify_event_integrity mac key job [] = []
verify_event_integrity mac key job (r ∷ rs) =
    let rest = verify_event_integrity mac key job rs in
    if text_eq r.job_id job then (if is_tampered mac key r then r.id ∷ rest else rest) else rest

-- A row as it stands after `SaveEvent`.
abbrev signed : (Text → Text → Text) → Text → EventRow → EventRow
signed mac key r = record r { hmac = compute_event_hmac mac key r }

unfoldable pub save_all :
    (Text → Text → Text) → Text → List EventRow → List EventRow → List EventRow
save_all mac key rows [] = rows
save_all mac key rows (r ∷ rs) = save_all mac key (save_event mac key rows r) rs

module _ (mac : Text → Text → Text) (key : Text) (keyed : key ≢ [])
    (written : (text : Text) → mac key text ≢ []) where
  signed-intact : (r : EventRow) → is_tampered mac key (signed mac key r) ≡ false
  unfolding is_tampered compute_event_hmac
  signed-intact r = go key keyed written
    where
      nonempty : (t : Text) → t ≢ [] → (is_nil t || not (text_eq t t)) ≡ false
      nonempty [] h = elim (h refl) [ ]
      nonempty (c ∷ t) h = rw (text_eq_refl (c ∷ t)) refl

      go :
          (k : Text)
          → k ≢ []
          → ((text : Text) → mac k text ≢ [])
          → (is_nil (if is_nil k then [] else mac k (canonical_of r))
              || not (
                  text_eq
                    (if is_nil k then [] else mac k (canonical_of r))
                    (if is_nil k then [] else mac k (canonical_of r))))
            ≡ false
      go [] h w = elim (h refl) [ ]
      go (c ∷ k) h w = nonempty _ (w (canonical_of r))

  verify-append :
      (job : Text) (rows : List EventRow) (r : EventRow)
      → verify_event_integrity mac key job (save_event mac key rows r)
        ≡ verify_event_integrity mac key job rows
  unfolding verify_event_integrity save_event
  verify-append job [] r = elim (Bool-cases (text_eq r.job_id job)) [
    | inl e ↦ rw (e, signed-intact r) refl
    | inr e ↦ rw e refl
  ]
  verify-append job (x ∷ rows) r = rw (verify-append job rows r) refl

  -- With a key, and a hash that is never empty, a log of events that were only saved verifies: no
  -- row is reported.
  pub save_all-intact :
      (job : Text) (rows : List EventRow)
      → verify_event_integrity mac key job (save_all mac key [] rows) ≡ []
  unfolding verify_event_integrity save_all
  save_all-intact job rows = go [] rows
    where
      go :
          (old rows : List EventRow)
          → verify_event_integrity mac key job (save_all mac key old rows)
            ≡ verify_event_integrity mac key job old
      go old [] = refl
      go old (r ∷ rs) = go (save_event mac key old r) rs ∙ verify-append job old r

-- The separator is not escaped: a row whose category ends in a separated part, and the row that has
-- this part in front of its data instead and any thread, verify alike under one stored hash.
pub is_tampered-shifted :
    (mac : Text → Text → Text) (key : Text) (r : EventRow) (category part body : Text) (tid : ℕ)
    → is_tampered mac key (record r { category = category ++ b'|' ∷ part; data_text = body })
      ≡ is_tampered mac key
          (record r { category = category; data_text = part ++ b'|' ∷ body; tid = tid })
unfolding is_tampered compute_event_hmac canonical_of canonical
is_tampered-shifted mac key r category part body tid =
    rw
      (
        append_assoc category (b'|' ∷ part) (b'|' ∷ (body ++ b'|' ∷ decimal r.severity)),
        append_assoc part (b'|' ∷ body) (b'|' ∷ decimal r.severity),
      )
      refl
