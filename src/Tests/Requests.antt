-- ===== src/Tests/Requests.antt =====
-- The theorems on the routes of lumenos_sandbox/api.py, at small requests.
use Prim.Native.Nat.{◌+◌, ◌≤◌, ◌<◌}
use lumenos_hiper_v.Prelude.{
  ℕ, Bool, true, false, leb, ltb, ◌&&◌, String, none, some, List, [], ◌∷◌, ◌≡◌, ◌≢◌, ◌↔◌, ◌⊎◌, refl,
  arith, All, ok, length, str_eq, if◌then◌else◌, lookup,
}
use lumenos_hiper_v.Types.{active, default_config}
use lumenos_hiper_v.Monitoring.Patterns.{codes}
use lumenos_hiper_v.Bunker.Closing.{Closed, Filed}
use lumenos_hiper_v.Api.{reply, refuse}
use lumenos_hiper_v.Api.Access.{
  FilePath, Service, Request, require_bearer_token, authorize_and_resolve, log_access_denied,
}
use lumenos_hiper_v.Api.Bearer.{Presents, require_bearer_token_outcome}
use lumenos_hiper_v.Api.Confinement.{Within, authorize_and_resolve_outcome}
use lumenos_hiper_v.Api.Audit.{OneLine, log_access_denied-OneLine}
use lumenos_hiper_v.Api.Slots.{
  Slots, max_in_flight, all_free, acquire, submission_failed, returned, Reached, start, next, take,
  Reached-Safe,
}
use lumenos_hiper_v.Api.Analyze.{Files, Waited, finished, analyze_sync_endpoint}
use lumenos_hiper_v.Api.Answers.{Answered, analyze_sync_endpoint_outcome}
use lumenos_hiper_v.Api.Ids.{valid_bunker_id, Plain, NoDotFirst, valid_bunker_id-Plain}
use lumenos_hiper_v.Api.Routes.{Store, Server, stop_bunker, create_bunker}
use lumenos_hiper_v.Api.Managed.{Ran}
use lumenos_hiper_v.Api.Lives.{Outcomes, stop_bunker_outcome, create_bunker_outcome}
use lumenos_hiper_v.Tests.Fixtures.{test_env, in_state}

abbrev token : String
token = "t0ken"

require_bearer_token_outcome_example :
    let r = require_bearer_token token (some "Bearer t0ken") in
    ((r ≡ reply tt) ↔ ((token ≢ "") × Presents token (some "Bearer t0ken")))
    × ((token ≡ "") → r ≡ refuse 503 "API token not configured")
    × ((token ≢ "")
        → ¬ (Presents token (some "Bearer t0ken"))
        → r ≡ refuse 401 "Invalid or missing bearer token")
require_bearer_token_outcome_example = require_bearer_token_outcome token (some "Bearer t0ken")

-- The scheme in any case passes, a token with a space before it does not.
token_test :
    (require_bearer_token "t0ken" (some "bEARER t0ken") ≡ reply tt)
    × (require_bearer_token "t0ken" (some "Bearer  t0ken")
        ≡ refuse 401 "Invalid or missing bearer token")
unfolding require_bearer_token
token_test = (refl, refl)

abbrev path_in : List String → FilePath
path_in parts = record { anchor = "/"; parts = parts }

abbrev service : Service
service = record {
  api_token = "t0ken";
  samples_root = "/samples";
  resolve = λ text.
      if str_eq text "/samples"
      then ok (path_in ("samples" ∷ []))
      else ok (path_in ("samples" ∷ "a" ∷ []));
}

authorize_and_resolve_outcome_example :
    let path = path_in ("samples" ∷ "a" ∷ []) in
    (authorize_and_resolve service "/samples/a" (some "Bearer t0ken") ≡ reply path) ↔ (
      ((service.api_token ≢ "") × Presents service.api_token (some "Bearer t0ken"))
      × (service.samples_root ≢ "")
      × (root : FilePath) × (service.resolve service.samples_root ≡ ok root)
      × (service.resolve "/samples/a" ≡ ok path)
      × Within root path)
authorize_and_resolve_outcome_example =
    authorize_and_resolve_outcome service "/samples/a" (some "Bearer t0ken")
      (path_in ("samples" ∷ "a" ∷ []))

abbrev one_taken : Slots
one_taken = record { free = 3; taken = 1; in_flight = 0 }

one_taken-Reached : Reached one_taken
unfolding acquire
one_taken-Reached = next start (take refl)

Reached-Safe_example :
    (one_taken.free + (one_taken.taken + one_taken.in_flight) ≡ max_in_flight)
    × ((acquire one_taken ≡ (false, one_taken))
        ↔ (one_taken.taken + one_taken.in_flight ≡ max_in_flight))
    × (0 < one_taken.taken
        → (t : Slots) × (submission_failed one_taken ≡ ok t) × (t.free ≡ one_taken.free + 1))
    × (0 < one_taken.in_flight
        → (t : Slots) × (returned one_taken ≡ ok t) × (t.free ≡ one_taken.free + 1))
Reached-Safe_example = Reached-Safe one_taken-Reached

abbrev request : Request
request = record {
  method = "POST";
  path = "/analyze-sync";
  client_host = some "127.0.0.1";
  user_agent = none;
}

abbrev printable : ℕ → Bool
printable c = leb 32 c && ltb c 127

abbrev files : Files
files = record { is_file = λ path. true; size = λ path. ok 10; limit = 100 }

abbrev waited : Waited ℕ
waited = finished (ok 7)

analyze_sync_endpoint_outcome_example :
    Answered printable service files request "/samples/a"
      (some "Bearer t0ken")
      waited
      ([], all_free)
      (analyze_sync_endpoint printable service files request "/samples/a"
        (some "Bearer t0ken")
        (ok tt)
        waited
        ([], all_free))
analyze_sync_endpoint_outcome_example =
    analyze_sync_endpoint_outcome printable service files request "/samples/a" (some "Bearer t0ken")
      (ok tt) waited ([], all_free) (omega arith)

log_access_denied-OneLine_example :
    let line = log_access_denied printable request 401 "bearer" in
    OneLine printable 200 line.endpoint
    × OneLine printable 64 line.client
    × OneLine printable 200 line.ua
log_access_denied-OneLine_example =
    log_access_denied-OneLine printable refl refl request 401 "bearer"

valid_bunker_id-Plain_example :
    All Plain (codes "bunker-1.a")
    × NoDotFirst (codes "bunker-1.a")
    × (1 ≤ length (codes "bunker-1.a"))
    × (length (codes "bunker-1.a") ≤ 64)
unfolding valid_bunker_id
valid_bunker_id-Plain_example = valid_bunker_id-Plain "bunker-1.a" refl

-- Two ids that could leave their folder.
refused_ids_test : (valid_bunker_id ".." ≡ false) × (valid_bunker_id "a/b" ≡ false)
unfolding valid_bunker_id
refused_ids_test = (refl, refl)

abbrev store : Store ℕ
store = record {
  load = λ id w. (ok none, w);
  delete = λ id w. (ok true, w);
  list_all = λ w. (ok [], w);
  token_hex = λ w. ("key", w);
  store_secret = λ name value w. (ok tt, w);
  bunker_config = λ fields. ok (default_config "b" "Bunker");
}

abbrev server : Server ℕ
server = record { bunkers = ("b", in_state active) ∷ []; world = 0 }

known : lookup "b" server.bunkers ≡ some (in_state active)
unfolding lookup
known = refl

stop_bunker_outcome_example :
    ((in_state active).state ≢ active
      → (text : String) × (stop_bunker store test_env "b" server ≡ (refuse 409 text, server)))
    × ((in_state active).state ≡ active
        → Ran store test_env "b" server
            (in_state active)
            known
            (λ r t. Closed r t × ((r ≡ false) ⊎ Filed test_env true t))
            (λ _ _. ⊥)
            "Termination failed"
            "Bunker b terminated"
            (stop_bunker store test_env "b" server))
stop_bunker_outcome_example = stop_bunker_outcome store test_env "b" server (in_state active) known

create_bunker_outcome_example :
    Outcomes store test_env
      (default_config "c" "Second")
      server
      (create_bunker store test_env (default_config "c" "Second") server)
create_bunker_outcome_example =
    create_bunker_outcome store test_env (default_config "c" "Second") server
