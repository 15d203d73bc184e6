-- ===== src/Examples/Sample.antt =====
-- An organization with four users, one upload and one grant, and concrete functions for the parts
-- outside the repository.
use log_monitor_tenex.Prelude.{
  ℕ, zero, suc, Text, codes, text_eq, true, false, Option, none, some, List, [], ◌∷◌, ◌++◌, ◌≡◌,
  refl, ap, ◌∙◌, ltb, if◌then◌else◌,
}
use log_monitor_tenex.Parser.Zscaler.{blank}
use log_monitor_tenex.Store.Tables.{
  Role, User, UserRow, Upload, AccessGrant, AccessLevel, Db, LogRow,
}
use log_monitor_tenex.Api.{Api, External, Claims}
use log_monitor_tenex.World.{World}

-- Texts one after another: each character is announced by a 1, the end by a 0.
unfoldable pub write_text : Text → Text → Text
write_text [] rest = 0 ∷ rest
write_text (c ∷ s) rest = 1 ∷ c ∷ write_text s rest

put_char : ℕ → Option (Text × Text) → Option (Text × Text)
put_char c none = none
put_char c (some (s, rest)) = some (c ∷ s, rest)

unfoldable pub read_text : Text → Option (Text × Text)
unfolding put_char
read_text [] = none
read_text (zero ∷ rest) = some ([], rest)
read_text (suc n ∷ []) = none
read_text (suc n ∷ c ∷ rest) = put_char c (read_text rest)

pub read_text-write_text : (s rest : Text) → read_text (write_text s rest) ≡ some (s, rest)
unfolding write_text read_text put_char
read_text-write_text [] rest = refl
read_text-write_text (c ∷ s) rest = rw (read_text-write_text s rest)

abbrev pub token_of : Claims → Text
token_of c =
    c.issued_at
    ∷ c.expires_at
    ∷ write_text c.org (write_text c.role (write_text c.purpose (write_text c.subject [])))

abbrev with_subject : ℕ → ℕ → Text → Text → Text → Option (Text × Text) → Option Claims
with_subject issued expires org role purpose none = none
with_subject issued expires org role purpose (some (subject, rest)) = some (record {
  org = org;
  role = role;
  purpose = purpose;
  subject = subject;
  issued_at = issued;
  expires_at = expires;
})

abbrev with_purpose : ℕ → ℕ → Text → Text → Option (Text × Text) → Option Claims
with_purpose issued expires org role none = none
with_purpose issued expires org role (some (purpose, rest)) =
    with_subject issued expires org role purpose (read_text rest)

abbrev with_role : ℕ → ℕ → Text → Option (Text × Text) → Option Claims
with_role issued expires org none = none
with_role issued expires org (some (role, rest)) =
    with_purpose issued expires org role (read_text rest)

abbrev pub claims_of : ℕ → ℕ → Option (Text × Text) → Option Claims
claims_of issued expires none = none
claims_of issued expires (some (org, rest)) = with_role issued expires org (read_text rest)

abbrev pub claims_in : ℕ → Text → Option Claims
claims_in now (issued ∷ expires ∷ t) =
    if ltb now expires then claims_of issued expires (read_text t) else none
claims_in now _ = none

pub claims_of-write_text :
    (c : Claims)
    → claims_of c.issued_at c.expires_at (
        read_text
          (write_text c.org (write_text c.role (write_text c.purpose (write_text c.subject [])))))
      ≡ some c
claims_of-write_text c =
    let subject = write_text c.subject [] in
    let purpose = write_text c.purpose subject in
    let role = write_text c.role purpose in
    ap (claims_of c.issued_at c.expires_at) (read_text-write_text c.org role)
    ∙ ap (with_role c.issued_at c.expires_at c.org) (read_text-write_text c.role purpose)
    ∙ ap (with_purpose c.issued_at c.expires_at c.org c.role)
        (read_text-write_text c.purpose subject)
    ∙ ap (with_subject c.issued_at c.expires_at c.org c.role c.purpose)
        (read_text-write_text c.subject [])

abbrev one_number : Text → Option ℕ
one_number (n ∷ []) = some n
one_number _ = none

-- A map that is ranged over from its last entry to its first.
abbrev pub last_first : List (ℕ × Text) → List (ℕ × Text)
last_first [] = []
last_first (e ∷ es) = last_first es ++ e ∷ []

abbrev pub outside : External
outside = record {
  parse_uuid = one_number;
  uuid_text = λ n. n ∷ [];
  sign = λ _ c. some (token_of c);
  parse_token = λ _ now t. claims_in now t;
  digest = λ t. t;
  hash_password = λ _ p. some p;
  verify_password = text_eq;
  encrypt = λ _ secret _. some secret;
  decrypt = λ sealed _. some sealed;
  split_host_port = λ t. some t;
  generate_secret = λ seed _. some (seed ∷ [], codes "otpauth");
  totp_valid = λ code _ _. text_eq code (codes "123456");
  recovery_code = λ seed. some (seed ∷ []);
  range_map = λ turn entries. last_first entries;
}

abbrev pub gateway : Api
gateway = record {
  external = outside;
  jwt_secret = codes "secret";
  totp_encryption_key = codes "0123456789abcdef0123456789abcdef";
  login_rate_enabled = true;
  has_limiter = true;
  has_queue = true;
  has_blob = false;
  shard_size = 2;
  max_upload_bytes = 1048576;
}

abbrev user : ℕ → Text → Role → User
user id email role = record {
  id = id;
  org_id = 7;
  email = email;
  password_hash = codes "correct horse";
  role = role;
  created_at = 10;
}

abbrev pub alice : User
alice = user 1 (codes "a@x") Role.member

abbrev pub bob : User
bob = user 2 (codes "b@x") Role.admin

abbrev pub carol : User
carol = user 3 (codes "c@x") Role.owner

abbrev pub dave : User
dave = user 4 (codes "d@x") Role.member

abbrev row : User → UserRow
row u = record { user = u; totp_enabled = false; totp_secret = none }

abbrev pub bob_row : UserRow
bob_row = record { user = bob; totp_enabled = true; totp_secret = some (codes "s") }

abbrev pub upload : Upload
upload = record {
  id = 5;
  org_id = 7;
  user_id = 1;
  filename = codes "web.log";
  byte_size = 90;
  line_count = 3;
  parsed_count = 3;
  format = codes "zscaler";
  object_key = codes "k";
  created_at = 20;
}

abbrev pub grant : AccessGrant
grant = record {
  id = 9;
  org_id = 7;
  upload_id = some 5;
  subject_user_id = 4;
  level = AccessLevel.summary;
  granted_by = 1;
  expires_at = some 2000;
  created_at = 30;
}

abbrev pub log_row : ℕ → LogRow
log_row n = record { upload_id = 5; org_id = 7; user_id = 1; entry = blank n }

abbrev database : Db
database = record {
  organizations =
      record { id = 7; name = codes "X"; slug = codes "x"; created_at = 10; require_mfa = false }
      ∷ [];
  users = row alice ∷ bob_row ∷ row carol ∷ row dave ∷ [];
  uploads = upload ∷ [];
  log_entries = log_row 1 ∷ log_row 2 ∷ log_row 3 ∷ [];
  entry_rollups = [];
  status_rollups = [];
  access_grants = grant ∷ [];
  analyses = [];
  anomalies = [];
  recovery_codes = [];
  audit_log = [];
}

abbrev pub start : World
start = record {
  db = database;
  redis = λ k. none;
  jobs = [];
  bucket = [];
  now = 1000;
  fresh = 100;
  faults = [];
}
