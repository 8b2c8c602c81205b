-- ===== src/Cmd/Client.antt =====
-- The commands that use the API client: newClient of cmd/oastrix/client.go, and the commands of
-- list.go, delete.go, generate.go and interactions.go beside it. The flags of a command stand in its
-- configuration; cobra parses them. What prints is `fmt.Fprintln` on the command's output.
pub mod Laws
use oastrix.Prelude.{ℕ, Str, Bool, true, false, Option, none, some, [], ◌∷◌, ◌≡◌}
use oastrix.Client.{
  HttpClient, Client, ClientError, Called, done, failed, Codec, CreateTokenResponse,
  GetInteractionsResponse, ListTokensResponse, new_client, create_token, get_interactions,
  list_tokens, delete_token,
}

pub record ClientConfig : Type 0 where
  pub api_key : Str
  pub api_url : Str

pub data CommandError : Type 0 where
  api_url_required api_key_required : CommandError
  client_failed : ClientError → CommandError
  encoding printing : CommandError

-- The result of a deletion that is printed.
pub record Deletion : Type 0 where
  pub token : Str
  pub deleted : Bool

-- `json.MarshalIndent` of what is printed.
pub record Indent : Type 0 where
  pub created : CreateTokenResponse → Option Str
  pub interactions : GetInteractionsResponse → Option Str
  pub listed : ListTokensResponse → Option Str
  pub deletion : Deletion → Option Str

pub data Configured (W : Type 0) : Type 0 where
  usable : Client W → Configured W
  unusable : CommandError → Configured W

module _ {W : Type 0} (standard : HttpClient W) where
  unfoldable pub new_config_client : ClientConfig → Configured W
  new_config_client cfg = elim cfg.api_url [
    | [] ↦ unusable api_url_required
    | x ∷ url ↦ elim cfg.api_key [
      | [] ↦ unusable api_key_required
      | y ∷ key ↦ usable (new_client standard (x ∷ url) (y ∷ key) [])
    ]
  ]

module _ {W : Type 0} where
  abbrev pub print_ended : Bool × W → Option CommandError × W
  print_ended (true, w) = (none, w)
  print_ended (false, w) = (some printing, w)

  module _ (fprintln : Str → W → Bool × W) where
    -- The encoding, if there is one, is printed.
    abbrev pub print_result : Option Str → W → Option CommandError × W
    print_result none w = (some encoding, w)
    print_result (some text) w = print_ended (fprintln text w)

    abbrev pub after_call : {A : Type 0} → (A → Option Str) → Called A × W → Option CommandError × W
    after_call marshal (failed e, w) = (some (client_failed e), w)
    after_call marshal (done a, w) = print_result (marshal a) w

    -- The body of a command: the client, the call, and the printing of what it gives.
    abbrev pub with_client :
        {A : Type 0}
        → Configured W
        → (Client W → W → Called A × W)
        → (A → Option Str)
        → W
        → Option CommandError × W
    with_client (unusable e) call marshal w = (some e, w)
    with_client (usable c) call marshal w = after_call marshal (call c w)

module _ {W : Type 0} (standard : HttpClient W) (json : Codec) (indent : Indent)
    (fprintln : Str → W → Bool × W) where
  unfoldable pub run_list : ClientConfig → W → Option CommandError × W
  unfolding new_config_client
  run_list cfg w =
      with_client fprintln (new_config_client standard cfg) (list_tokens json) indent.listed w

  unfoldable pub run_generate : ClientConfig → Str → W → Option CommandError × W
  unfolding new_config_client
  run_generate cfg label w =
      with_client fprintln (new_config_client standard cfg) (λ c. create_token json c label)
        indent.created w

  unfoldable pub run_interactions : ClientConfig → Str → W → Option CommandError × W
  unfolding new_config_client
  run_interactions cfg token w =
      with_client fprintln (new_config_client standard cfg) (λ c. get_interactions json c token)
        indent.interactions w

  unfoldable pub run_delete : ClientConfig → Str → W → Option CommandError × W
  unfolding new_config_client
  run_delete cfg token w =
      with_client fprintln (new_config_client standard cfg) (λ c. delete_token json c token)
        (λ u. indent.deletion (record { token = token; deleted = true })) w

-- `Execute`: the exit code for the error of the command.
unfoldable pub exit_code : Option CommandError → ℕ
exit_code none = 0
exit_code (some e) = 1
