-- ===== src/Api/Outcome.antt =====
-- How the calls of frontend/src/lib/api.ts end.
use interbellum.Common.{
  ℕ, [], ◌∷◌, Bool, true, false, ◌≡◌, refl, inl, inr, arith, Option, none, some, Bool-cases, sym,
  subst, if◌then◌else◌,
}
use interbellum.Text.{Text, codes}
use interbellum.Types.{JsonValue, null, str}
use interbellum.Json.{JsonEngine}
use interbellum.ApiError.{ApiError, or_truthy, truthy, new_api_error}
use interbellum.Api.{
  FetchResult, responded, unreadable, aborted, thrown, thrown_value, withdrawn, read_failed,
  api_error, ApiOutcome, resolved, failed, is_ok, conclude, read_parsed, read_text, receive,
}

or_truthy-truthy :
    (o : Option JsonValue) (c : ℕ) (s : Text) → truthy (or_truthy o (str (c ∷ s))) ≡ true
unfolding or_truthy truthy
or_truthy-truthy none c s = refl
or_truthy-truthy (some v) c s = elim (Bool-cases (truthy v)) [
  | inl t ↦ ground arith
  | inr f ↦ ground arith
]

-- An error that was made for a status: it keeps the status, and its code is never empty.
abbrev pub IsErrorOf : ℕ → ApiError → Type 0
IsErrorOf status err = (err.status ≡ status) × (truthy err.code ≡ true)

-- What each end of `fetch` is to become.
abbrev pub IsAnsweredBy : FetchResult → ApiOutcome → Type 0
IsAnsweredBy (responded status text) (resolved body s) = (is_ok status ≡ true) × (s ≡ status)
IsAnsweredBy (responded status text) (failed (api_error err)) =
    (is_ok status ≡ false) × IsErrorOf status err
IsAnsweredBy (responded status text) _ = ⊥
IsAnsweredBy (unreadable status) outcome = outcome ≡ failed read_failed
IsAnsweredBy aborted outcome = outcome ≡ failed withdrawn
IsAnsweredBy (thrown message) (failed (api_error err)) = IsErrorOf 0 err
IsAnsweredBy (thrown message) _ = ⊥
IsAnsweredBy thrown_value (failed (api_error err)) = IsErrorOf 0 err
IsAnsweredBy thrown_value _ = ⊥

if-IsAnsweredBy :
    (status : ℕ) (text : Text) (good bad : ApiOutcome)
    → (is_ok status ≡ true → IsAnsweredBy (responded status text) good)
    → (is_ok status ≡ false → IsAnsweredBy (responded status text) bad)
    → IsAnsweredBy (responded status text) (if is_ok status then good else bad)
if-IsAnsweredBy status text good bad h k =
    let chosen = λ (b : Bool). IsAnsweredBy (responded status text) (if b then good else bad) in
    elim (Bool-cases (is_ok status)) [
      | inl t ↦ subst chosen (sym t) (h t)
      | inr f ↦ subst chosen (sym f) (k f)
    ]

new_api_error-IsErrorOf :
    (status : ℕ) (body : JsonValue) → IsErrorOf status (new_api_error status body)
unfolding new_api_error codes
new_api_error-IsErrorOf status body = (refl, or_truthy-truthy _ _ _)

conclude-IsAnsweredBy :
    (status : ℕ) (text : Text) (body : JsonValue)
    → IsAnsweredBy (responded status text) (conclude status body)
unfolding conclude
conclude-IsAnsweredBy status text body =
    if-IsAnsweredBy status text (resolved body status) _ (λ t. (t, refl))
      (λ f. (f, new_api_error-IsErrorOf status _))

read_parsed-IsAnsweredBy :
    (status : ℕ) (text : Text) (o : Option JsonValue)
    → IsAnsweredBy (responded status text) (read_parsed status text o)
unfolding read_parsed
read_parsed-IsAnsweredBy status text none =
    if-IsAnsweredBy status text (resolved null status) _ (λ t. (t, refl))
      (λ f. (f, new_api_error-IsErrorOf status _))
read_parsed-IsAnsweredBy status text (some body) = conclude-IsAnsweredBy status text body

-- Every call ends: an answer in the 200s is resolved with its status, any other answer and any
-- failure to send is an `ApiError` of that status, or of 0, whose code is not empty, and an abort
-- and a failed read are passed on as they are.
pub receive-IsAnsweredBy :
    (json : JsonEngine) (result : FetchResult) → IsAnsweredBy result (receive json result)
unfolding receive read_text
receive-IsAnsweredBy json (responded status []) = conclude-IsAnsweredBy status [] null
receive-IsAnsweredBy json (responded status (c ∷ s)) = read_parsed-IsAnsweredBy status (c ∷ s) _
receive-IsAnsweredBy json (unreadable status) = refl
receive-IsAnsweredBy json aborted = refl
receive-IsAnsweredBy json (thrown message) = new_api_error-IsErrorOf 0 _
receive-IsAnsweredBy json thrown_value = new_api_error-IsErrorOf 0 _
