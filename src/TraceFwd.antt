-- ===== src/TraceFwd.antt =====
-- cmd/trace-fwd/main.go: the test service that asks its targets, one after the other, with the
-- tracing headers of the request that it serves. The spelling of header names (net/http's canonical
-- form), the parser of URLs, the HTTP client and the dump of a request are parameters.
pub mod Headers
pub mod Targets
use Prim.Native.String
use bent.Shared.{
  if◌then◌else◌, ◌==◌, Map, insert, list_at, split_text, ℕ, String, Bool, true, false, not, Option,
  none, some, List, [], ◌∷◌, ◌++◌, string_key, nat_key,
}

-- The values of each header, under its canonical name.
abbrev pub Header : Type 0
Header = Map String (List String)

abbrev pub headers_to_propagate : List String
headers_to_propagate =
    "x-ot-span-context" ∷ "x-Request-id" ∷ "x-b3-traceid" ∷ "x-b3-spanid" ∷ "x-b3-parentspanid"
    ∷ "x-b3-sampled" ∷ "x-b3-flags" ∷ "uber-trace-id" ∷ []

-- The request that a target is sent: a GET.
pub record Forwarded : Type 0 where
  pub endpoint : String
  pub header : Header

-- The packages that the program is built on; the incoming request is its header and what
-- `DumpRequest` makes of it.
pub record Network : Type 1 where
  pub State : Type 0
  -- The canonical form of a header's name.
  pub canonical : String → String
  -- Whether `http.NewRequest` takes the URL.
  pub is_url : String → Bool
  -- Whether the request got an answer.
  pub answer : Forwarded → State → Bool × State

pub record Incoming : Type 0 where
  pub header : Header
  -- `none` is an error of `DumpRequest`.
  pub dump : Option String

pub record Reply : Type 0 where
  pub status : ℕ
  pub body : String

-- The targets in the environment; without them the program ends.
unfoldable pub parse_targets : String → Option (List String)
parse_targets target_from_env =
    if target_from_env == "" then none else some (split_text target_from_env ",")

first_value : List String → String
first_value [] = ""
first_value (v ∷ vs) = v

-- `Header.Get` and `Header.Set`.
unfoldable pub get_header : (String → String) → String → Header → String
unfolding first_value
get_header canonical key h = first_value (list_at (canonical key) h)

unfoldable pub set_header : (String → String) → String → String → Header → Header
set_header canonical key val h = insert (canonical key) (val ∷ []) h

-- The loop of `copyHeaders`.
unfoldable pub copy_from : (String → String) → List String → Header → Header → Header
copy_from canonical [] source target = target
copy_from canonical (key ∷ keys) source target =
    let header = get_header canonical key source in
    copy_from canonical keys source
      (if not (header == "") then set_header canonical key header target else target)

unfoldable pub copy_headers : (String → String) → Header → Header → Header
unfolding copy_from
copy_headers canonical source target = copy_from canonical headers_to_propagate source target

module _ (net : Network) where
  abbrev pub request_to : Incoming → String → Forwarded
  request_to r target = record {
    endpoint = target;
    header = copy_headers net.canonical r.header [];
  }

  -- Whether there was no error.
  unfoldable pub do_request : Incoming → String → net.State → Bool × net.State
  do_request r target s =
      if net.is_url target then net.answer (request_to r target) s else (false, s)

  unfoldable pub dumped : Option String → Reply
  dumped none = record { status = 500; body = "" }
  dumped (some dump) = record {
    status = 200;
    body = String.◌++◌ "\n========== your request ==========\n" dump;
  }

  -- The loop goes on after an answer, and replies after an error.
  unless_failed : (net.State → Reply × net.State) → Bool × net.State → Reply × net.State
  unless_failed next (true, s) = next s
  unless_failed next (false, s) = (record { status = 500; body = "" }, s)

  -- The loop of `httpHandler`, and what follows it.
  unfoldable pub http_handler : List String → Incoming → net.State → Reply × net.State
  unfolding dumped unless_failed
  http_handler [] r s = (dumped r.dump, s)
  http_handler (target ∷ targets) r s =
      unless_failed (λ s'. http_handler targets r s') (do_request r target s)

unfoldable pub healthz : Reply
healthz = record { status = 200; body = "" }
