-- ===== src/Errors.antt =====
-- shared/errors/app.exception.ts: the errors that a handler raises, and the result of a step.
use orbitplay_api.Prelude.{ℕ, String, List, Bool, true, false}
use orbitplay_api.Uuid.{Text}

-- A key of `fieldErrors`: a field of the request, or the id of a form question.
pub data Field : Type 0 where
  named : String → Field
  question : Text → Field

-- A message of `fieldErrors`: a fixed text, or the rating message with the bounds it is filled with.
pub data Message : Type 0 where
  text : String → Message
  integer_between : ℕ → ℕ → Message

-- `AppException`: one constructor for each static factory, with its message.
pub data AppException : Type 0 where
  not_found : String → AppException
  forbidden : String → AppException
  unauthorized : String → AppException
  conflict : String → AppException
  validation : String → List (Field × Message) → AppException
  too_many_requests : String → AppException

-- The HTTP status that the constructor passes on.
unfoldable pub status_code : AppException → ℕ
status_code (not_found m) = 404
status_code (forbidden m) = 403
status_code (unauthorized m) = 401
status_code (conflict m) = 409
status_code (validation m f) = 422
status_code (too_many_requests m) = 429

-- The unique indexes that the account tables are written under.
pub data UniqueIndex : Type 0 where
  primary_key users_email organizations_slug memberships_org_user token_hash : UniqueIndex

-- The errors that the account repositories throw: `MemberAlreadyExistsError`, `LastOwnerError`,
-- `PendingInviteError` and `EmailAlreadyTakenError`.
pub data RepositoryError : Type 0 where
  member_already_exists last_owner pending_invite email_already_taken : RepositoryError

-- What can be thrown: an `AppException`, PostgreSQL's unique violation (23505), of a named index
-- where the code asks for it, an error of a repository, or another `Error`.
pub data Failure : Type 0 where
  app : AppException → Failure
  unique_violation : Failure
  violates : UniqueIndex → Failure
  repository : RepositoryError → Failure
  error : String → Failure

pub data Result {ℓ} (A : Type ℓ) : Type ℓ where
  ok : A → Result A
  err : Failure → Result A

-- `AppException.notFound()` with its default message.
abbrev pub not_found_default : AppException
not_found_default = not_found "Recurso não encontrado"

abbrev pub is_unique_violation : Failure → Bool
is_unique_violation unique_violation = true
is_unique_violation (violates i) = true
is_unique_violation _ = false

-- `err instanceof …Error`
abbrev pub is_last_owner : Failure → Bool
is_last_owner (repository last_owner) = true
is_last_owner _ = false

abbrev pub is_pending_invite : Failure → Bool
is_pending_invite (repository pending_invite) = true
is_pending_invite _ = false

abbrev pub is_member_already_exists : Failure → Bool
is_member_already_exists (repository member_already_exists) = true
is_member_already_exists _ = false

abbrev pub is_email_already_taken : Failure → Bool
is_email_already_taken (repository email_already_taken) = true
is_email_already_taken _ = false

-- `isUniqueViolation(err, constraint)`
abbrev pub violates_member : Failure → Bool
violates_member (violates memberships_org_user) = true
violates_member _ = false

abbrev pub violates_email : Failure → Bool
violates_email (violates users_email) = true
violates_email _ = false

abbrev pub violates_slug : Failure → Bool
violates_slug (violates organizations_slug) = true
violates_slug _ = false
