-- ===== src/Api/Access.antt =====
-- The bearer token, the audit line of a refused access and the confinement of sample paths, of
-- lumenos_sandbox/api.py. A path is its anchor and its parts, compared as on POSIX.
use Prim.Native.Char.{code}
use lumenos_hiper_v.Prelude.{
  ℕ, ◌==◌, Bool, true, false, not, ◌||◌, ◌&&◌, String, Option, none, some, List, [], ◌∷◌, ◌++◌, map,
  any, get_or, is_nonempty, str_eq, Outcome, take_text, if◌then◌else◌,
}
use lumenos_hiper_v.Monitoring.Patterns.{codes, lower, codes_eq}
use lumenos_hiper_v.Api.{Reply, reply, refuse, crash, ◌>>=◌, from_outcome}

-- The first and the last part of `text.partition(" ")`.
unfoldable pub partition_space : String → String × String
partition_space String.[] = ("", "")
partition_space (String.◌∷◌ c s) =
    let rest = partition_space s in if code c == 32 then ("", s) else (String.◌∷◌ c rest.0, rest.1)

-- `scheme.lower() == "bearer"`: no letter but an ASCII one has a lower case among these.
abbrev pub is_bearer : String → Bool
is_bearer scheme = codes_eq (lower (codes scheme)) (codes "bearer")

-- `_require_bearer_token`, for the value of LUMENOS_API_TOKEN. Texts with equal bytes are equal.
unfoldable pub require_bearer_token : String → Option String → Reply (Unit {0})
unfolding partition_space
require_bearer_token expected authorization =
    let (scheme, presented) = partition_space (get_or authorization "") in
    if not (is_nonempty expected)
    then refuse 503 "API token not configured"
    else if not (is_bearer scheme) || not (is_nonempty presented) || not (str_eq presented expected)
    then refuse 401 "Invalid or missing bearer token"
    else reply tt

pub record Request : Type 0 where
  pub method : String
  pub path : String
  pub client_host : Option String
  pub user_agent : Option String

pub record AuditLine : Type 0 where
  pub status : ℕ
  pub reason : String
  pub method : String
  pub endpoint : String
  pub client : String
  pub ua : String

abbrev pub client_of : Option String → String
client_of none = "unknown"
client_of (some host) = host

-- `str.isprintable` of a character is an argument.
module _ (is_printable : ℕ → Bool) where
  unfoldable pub clean : String → String
  clean String.[] = ""
  clean (String.◌∷◌ c s) =
      let rest = clean s in if is_printable (code c) then String.◌∷◌ c rest else String.◌∷◌ " " rest

  unfoldable pub sanitize_audit_field : Option String → ℕ → String
  unfolding clean take_text
  sanitize_audit_field none max_len = "-"
  sanitize_audit_field (some value) max_len =
      if not (is_nonempty value) then "-" else take_text max_len (clean value)

  -- The line that `_log_access_denied` emits.
  unfoldable pub log_access_denied : Request → ℕ → String → AuditLine
  unfolding sanitize_audit_field
  log_access_denied request status_code reason = record {
    status = status_code;
    reason = reason;
    method = request.method;
    endpoint = sanitize_audit_field (some request.path) 200;
    client = sanitize_audit_field (some (client_of request.client_host)) 64;
    ua = sanitize_audit_field request.user_agent 200;
  }

  -- `except HTTPException as exc: _log_access_denied(…); raise`, on the lines of the audit so far
  abbrev pub audited :
      {A : Type 0} → Request → String → Reply A → List AuditLine → Reply A × List AuditLine
  audited request reason (reply a) audit = (reply a, audit)
  audited request reason (refuse status detail) audit =
      (refuse status detail, audit ++ log_access_denied request status reason ∷ [])
  audited request reason (crash e) audit = (crash e, audit)

  unfoldable pub verify_bearer_token_standalone :
      String → Request → Option String → List AuditLine → Reply (Unit {0}) × List AuditLine
  unfolding require_bearer_token
  verify_bearer_token_standalone expected request authorization audit =
      audited request "bearer" (require_bearer_token expected authorization) audit

-- A resolved path.
pub record FilePath : Type 0 where
  pub anchor : String
  pub parts : List String

abbrev pub parts_eq : List String → List String → Bool
parts_eq [] [] = true
parts_eq (p ∷ ps) (q ∷ qs) = str_eq p q && parts_eq ps qs
parts_eq _ _ = false

abbrev pub path_eq : FilePath → FilePath → Bool
path_eq p q = str_eq p.anchor q.anchor && parts_eq p.parts q.parts

-- The parts of the parents of a path, the furthest first.
unfoldable pub parents_parts : List String → List (List String)
parents_parts [] = []
parents_parts (p ∷ ps) = [] ∷ map (λ qs. p ∷ qs) (parents_parts ps)

-- `path.parents`
abbrev pub parents : FilePath → List FilePath
parents path = map (λ ps. record { anchor = path.anchor; parts = ps }) (parents_parts path.parts)

-- The environment of the service: the variables it reads, and `Path(text).resolve()`, which may raise.
pub record Service : Type 0 where
  pub api_token : String
  pub samples_root : String
  pub resolve : String → Outcome FilePath

abbrev pub confined : FilePath → FilePath → Reply FilePath
confined root candidate =
    if not (path_eq candidate root) && not (any (λ p. path_eq root p) (parents candidate))
    then refuse 403 "Sample path is outside the allowed root"
    else reply candidate

unfoldable pub authorize_and_resolve : Service → String → Option String → Reply FilePath
unfolding require_bearer_token parents_parts
authorize_and_resolve service sample_path authorization =
    require_bearer_token service.api_token authorization >>= λ _.
    if not (is_nonempty service.samples_root)
    then refuse 503 "Sample root not configured"
    else from_outcome (service.resolve service.samples_root) >>= λ root.
        from_outcome (service.resolve sample_path) >>= λ candidate. confined root candidate
