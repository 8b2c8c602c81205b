-- ===== src/Client.antt =====
-- The API client: internal/client/client.go, with the responses of internal/apitypes/types.go. An
-- `HTTPClient` is a function on the state `W` of what it talks to; it is a parameter, as is what
-- `encoding/json` and `http.NewRequestWithContext` do. A header is a pair, in the order in which
-- it is set. Closing a body and the context, which is never cancelled, are left out.
pub mod Outcomes
pub mod Served
pub mod Seen
use oastrix.Prelude.{
  ℕ, Str, bytes, Bool, Option, none, some, List, [], ◌∷◌, ◌++◌, if◌then◌else◌, ◌==◌, str_eq,
}
use oastrix.Server.Api.Types.{TokenInfo, InteractionResponse}

pub record CreateTokenResponse : Type 0 where
  pub token : Str
  pub payloads : List (Str × Str)

pub record GetInteractionsResponse : Type 0 where
  pub token : Str
  pub interactions : List InteractionResponse

pub record ListTokensResponse : Type 0 where
  pub tokens : List TokenInfo

pub record Request : Type 0 where
  pub method : Str
  pub url : Str
  pub headers : List (Str × Str)
  pub body : Option Str

-- The body is what reading all of it gives, `none` where reading fails.
pub record HttpResponse : Type 0 where
  pub status_code : ℕ
  pub body : Option Str

-- An HTTP client: `none` where the request could not be executed.
abbrev pub HttpClient : Type 0 → Type 0
HttpClient W = Request → W → Option HttpResponse × W

-- What the client calls of the standard library: whether a URL is one, and JSON. `Decode` reads a
-- body, `Unmarshal` a text.
pub record Codec : Type 0 where
  pub valid_url : Str → Bool
  pub marshal_create : Str → Option Str
  pub decode_created : Option Str → Option CreateTokenResponse
  pub decode_interactions : Option Str → Option GetInteractionsResponse
  pub decode_list : Option Str → Option ListTokensResponse
  pub unmarshal_error : Str → Option Str

pub data ClientError : Type 0 where
  marshal_request create_request execute_request decode_response : ClientError
  read_error_response : ℕ → ClientError
  request_failed : ℕ → Str → ClientError
  -- The text that the server gives.
  server_error : Str → ClientError

pub data Called {ℓ} (A : Type ℓ) : Type ℓ where
  done : A → Called A
  failed : ClientError → Called A

pub record Client (W : Type 0) : Type 0 where
  pub base_url : Str
  pub api_key : Str
  pub http_client : HttpClient W

-- `Option`, which changes a client.
abbrev pub ClientOption : Type 0 → Type 0
ClientOption W = Client W → Client W

module _ {W : Type 0} where
  unfoldable pub with_http_client : HttpClient W → ClientOption W
  with_http_client h c = record c { http_client = h }

  -- The loop over the options.
  unfoldable pub apply_options : List (ClientOption W) → ClientOption W
  apply_options [] c = c
  apply_options (opt ∷ opts) c = apply_options opts (opt c)

  -- The first argument is the `http.Client` that stands where no option gives another.
  unfoldable pub new_client : HttpClient W → Str → Str → List (ClientOption W) → Client W
  unfolding apply_options
  new_client standard base_url api_key opts =
      apply_options opts (record { base_url = base_url; api_key = api_key; http_client = standard })

  abbrev pub authorization : Client W → Str × Str
  authorization c = (bytes "Authorization", bytes "Bearer " ++ c.api_key)

  abbrev pub tokens_url : Client W → Str
  tokens_url c = c.base_url ++ bytes "/v1/tokens"

  -- The token stands in the path as it is given.
  abbrev pub token_url : Client W → Str → Str
  token_url c token = c.base_url ++ (bytes "/v1/tokens/" ++ token)

  abbrev pub create_request_of : Client W → Str → Request
  create_request_of c body = record {
    method = bytes "POST";
    url = tokens_url c;
    headers = authorization c ∷ (bytes "Content-Type", bytes "application/json") ∷ [];
    body = some body;
  }

  abbrev pub interactions_request : Client W → Str → Request
  interactions_request c token = record {
    method = bytes "GET";
    url = token_url c token ++ bytes "/interactions";
    headers = authorization c ∷ [];
    body = none;
  }

  abbrev pub list_request : Client W → Request
  list_request c = record {
    method = bytes "GET";
    url = tokens_url c;
    headers = authorization c ∷ [];
    body = none;
  }

  abbrev pub delete_request : Client W → Str → Request
  delete_request c token = record {
    method = bytes "DELETE";
    url = token_url c token;
    headers = authorization c ∷ [];
    body = none;
  }

abbrev pub of_decoded : {A : Type 0} → Option A → Called A
of_decoded none = failed decode_response
of_decoded (some a) = done a

-- The error for a body that was read, and for the text that `Unmarshal` finds in it.
abbrev pub error_of : ℕ → Str → Option Str → ClientError
error_of status body none = request_failed status body
error_of status body (some []) = request_failed status body
error_of status body (some (x ∷ text)) = server_error (x ∷ text)

module _ {W : Type 0} (json : Codec) (c : Client W) where
  unfoldable pub parse_error : HttpResponse → ClientError
  parse_error resp = elim resp.body [
    | none ↦ read_error_response resp.status_code
    | some body ↦ error_of resp.status_code body (json.unmarshal_error body)
  ]

  -- The statements after the response came.
  abbrev pub received : {A : Type 0} → (Option Str → Called A) → HttpResponse → Called A
  received decode resp =
      if resp.status_code == 200 then decode resp.body else failed (parse_error resp)

  abbrev pub executed :
      {A : Type 0} → (Option Str → Called A) → Option HttpResponse × W → Called A × W
  executed decode (none, w) = (failed execute_request, w)
  executed decode (some resp, w) = (received decode resp, w)

  -- The statements from `NewRequestWithContext` on, which the methods share.
  unfoldable pub call : {A : Type 0} → Request → (Option Str → Called A) → W → Called A × W
  unfolding parse_error
  call req decode w =
      if json.valid_url req.url
      then executed decode (c.http_client req w)
      else (failed create_request, w)

  -- `Decode` into the result.
  abbrev pub decoded : {A : Type 0} → (Option Str → Option A) → Option Str → Called A
  decoded decode body = of_decoded (decode body)

  unfoldable pub create_token : Str → W → Called CreateTokenResponse × W
  unfolding call
  create_token label w = elim (json.marshal_create label) [
    | none ↦ (failed marshal_request, w)
    | some body ↦ call (create_request_of c body) (decoded json.decode_created) w
  ]

  unfoldable pub get_interactions : Str → W → Called GetInteractionsResponse × W
  unfolding call
  get_interactions token w =
      call (interactions_request c token) (decoded json.decode_interactions) w

  unfoldable pub list_tokens : W → Called ListTokensResponse × W
  unfolding call
  list_tokens w = call (list_request c) (decoded json.decode_list) w

  -- The body of a deletion is not read.
  unfoldable pub delete_token : Str → W → Called (Unit {0}) × W
  unfolding call
  delete_token token w = call (delete_request c token) (λ body. done tt) w
