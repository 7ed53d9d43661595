-- ===== src/Api/Auth.antt =====
-- pkg/middleware/auth.go: `APIKeyAuth`, `secureCompare` and `ContentTypeJSON`. A handler is the
-- function from its request to the response it writes; the handler that is wrapped is any.
use Prim.Native.Nat.{bit_or, bit_xor}
use gasha_sandbox.Common.{
  ℕ, ◌≡◌, ◌≢◌, refl, Bool, true, false, ◌&&◌, not, [], ◌∷◌, ◌++◌, arith, ◌==◌, if◌then◌else◌,
  length, is_nil, Bool-cases, inl, inr, ◌↔◌, ==_iff, ==_refl,
}
use gasha_sandbox.Common.Text.{Text, codes, text_eq, has_prefix}
use gasha_sandbox.Common.Bits.{eq_of_bit_xor, bit_or-eq_zero, bit_xor_self}

-- What the middleware reads of a request: `Header.Get` and `URL.Query().Get` give the empty text
-- for a name that is not there.
pub record Request : Type 0 where
  pub method : Text
  pub header : Text → Text
  pub query : Text → Text

pub record Response : Type 0 where
  pub status : ℕ
  pub body : Text

abbrev pub Handler : Type 0
Handler = Request → Response

-- `http.Error`, which ends the body with a line feed
abbrev pub unauthorized : Response
unauthorized = record { status = 401; body = codes "{\"error\":\"unauthorized\"}" ++ 10 ∷ [] }

abbrev pub unsupported_media_type : Response
unsupported_media_type = record {
  status = 415;
  body = codes "{\"error\":\"unsupported content-type\"}" ++ 10 ∷ [];
}

-- The loop of `secureCompare`; both texts are of one length there.
unfoldable pub diff_from : ℕ → Text → Text → ℕ
diff_from diff [] b = diff
diff_from diff (x ∷ a) [] = diff
diff_from diff (x ∷ a) (y ∷ b) = diff_from (bit_or diff (bit_xor x y)) a b

unfoldable pub secure_compare : Text → Text → Bool
unfolding diff_from
secure_compare a b = if length a == length b then diff_from 0 a b == 0 else false

unfoldable pub presented_key : Request → Text
presented_key r =
    let key = r.header (codes "X-API-Key") in if is_nil key then r.query (codes "api_key") else key

unfoldable pub api_key_auth : Text → Handler → Handler
unfolding secure_compare presented_key
api_key_auth api_key next r =
    if is_nil api_key
    then next r
    else if not (secure_compare (presented_key r) api_key)
    then unauthorized
    else next r

unfoldable pub content_type_json : Handler → Handler
content_type_json next r =
    let ct = r.header (codes "Content-Type") in
    if text_eq r.method (codes "POST")
      && (not (is_nil ct)
          && (not (has_prefix ct (codes "application/json"))
              && not (has_prefix ct (codes "multipart/form-data"))))
    then unsupported_media_type
    else next r

diff_from-zero :
    (diff : ℕ) (a b : Text) → length a ≡ length b → diff_from diff a b ≡ 0 → (diff ≡ 0) × (a ≡ b)
unfolding diff_from
diff_from-zero diff [] [] n h = (h, refl)
diff_from-zero diff [] (y ∷ b) n h = ground arith
diff_from-zero diff (x ∷ a) [] n h = ground arith
diff_from-zero diff (x ∷ a) (y ∷ b) n h =
    let rest = diff_from-zero (bit_or diff (bit_xor x y)) a b (omega arith) h in
    let both = bit_or-eq_zero diff (bit_xor x y) rest.0 in
    (both.0, rw (eq_of_bit_xor x y both.1, rest.1) refl)

diff_from-same : (a : Text) → diff_from 0 a a ≡ 0
unfolding diff_from
diff_from-same [] = refl
diff_from-same (x ∷ a) = rw (bit_xor_self x) (diff_from-same a)

-- The comparison without an early exit accepts a key exactly when it is the expected one.
pub secure_compare_iff : (a b : Text) → (secure_compare a b ≡ true) ↔ (a ≡ b)
unfolding secure_compare
secure_compare_iff a b = (
  λ h. elim (Bool-cases (length a == length b)) [
    | inl e ↦
        (diff_from-zero 0 a b ((==_iff (length a) (length b)).0 e) ((==_iff _ 0).0 (rw e at h))).1
    | inr e ↦ ground arith
  ],
  λ e. rw (e, ==_refl (length b), diff_from-same b) refl,
)

-- With a key configured, a request that presents it reaches the handler, and every other request
-- is answered 401 without the handler being called.
pub api_key_auth_lem :
    (api_key : Text) (next : Handler) (r : Request)
    → api_key ≢ []
    → (presented_key r ≡ api_key → api_key_auth api_key next r ≡ next r)
      × (presented_key r ≢ api_key → api_key_auth api_key next r ≡ unauthorized)
unfolding api_key_auth
api_key_auth_lem [] next r h = elim (h refl) [ ]
api_key_auth_lem (c ∷ cs) next r h = (
  λ e. rw ((secure_compare_iff (presented_key r) (c ∷ cs)).1 e) refl,
  λ n. elim (Bool-cases (secure_compare (presented_key r) (c ∷ cs))) [
    | inl e ↦ elim (n ((secure_compare_iff (presented_key r) (c ∷ cs)).0 e)) [ ]
    | inr e ↦ rw e refl
  ],
)
