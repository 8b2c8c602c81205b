-- ===== src/Server/Api/Types.antt =====
-- The responses of the API: internal/apitypes/types.go, and `writeJSON` of internal/server/api.go.
use oastrix.Prelude.{
  ℤ, ℕ, Str, String, Bool, true, false, ◌&&◌, Option, none, some, List, [], ◌∷◌, if◌then◌else◌,
}
use oastrix.Events.{encodes, unencodable, Attributes, Headers}

pub record TokenInfo : Type 0 where
  pub token : Str
  pub label : Option Str
  pub created_at : Str
  pub interaction_count : ℕ

pub record HttpInteractionDetail : Type 0 where
  pub method : Str
  pub scheme : Str
  pub host : Str
  pub path : Str
  pub query : Str
  pub headers : Headers
  pub body : Str

pub record DnsInteractionDetail : Type 0 where
  pub qname : Str
  pub qtype : ℕ
  pub qclass : ℕ
  pub rd : Bool
  pub opcode : ℕ
  pub dns_id : ℕ
  pub protocol : Str

pub record InteractionResponse : Type 0 where
  pub id : ℕ
  pub kind : Str
  pub occurred_at : Str
  pub remote_ip : Str
  pub remote_port : ℤ
  pub tls : Bool
  pub summary : Str
  pub http : Option HttpInteractionDetail
  pub dns : Option DnsInteractionDetail

pub record PluginInfo : Type 0 where
  pub id : Str
  pub type : Str
  pub enabled : Bool
  pub config : Option Attributes

pub data Body : Type 0 where
  error_response : String → Body
  create_token_response : Str → List (Str × Str) → Body
  list_tokens_response : List TokenInfo → Body
  get_interactions_response : Str → List InteractionResponse → Body
  delete_token_response : Bool → Body
  list_plugins_response : List PluginInfo → Body
  -- The text of `http.Error`.
  plain : String → Body

pub record Response : Type 0 where
  pub status : ℕ
  pub body : Body

abbrev pub encodable_values : Attributes → Bool
encodable_values [] = true
encodable_values ((k, encodes v) ∷ more) = encodable_values more
encodable_values ((k, unencodable) ∷ more) = false

abbrev pub encodable_config : Option Attributes → Bool
encodable_config none = true
encodable_config (some c) = encodable_values c

abbrev pub encodable_infos : List PluginInfo → Bool
encodable_infos [] = true
encodable_infos (p ∷ ps) = encodable_config p.config && encodable_infos ps

-- Only the configuration of a plugin can hold a value that JSON cannot encode.
abbrev pub encodable : Body → Bool
encodable (list_plugins_response ps) = encodable_infos ps
encodable _ = true

abbrev pub write_json : ℕ → Body → Response
write_json status body =
    if encodable body
    then record { status = status; body = body }
    else record { status = 500; body = plain "internal error" }

abbrev pub error_json : ℕ → String → Response
error_json status text = write_json status (error_response text)
