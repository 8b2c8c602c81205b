-- ===== src/Models.antt =====
-- The rows of the database: internal/models/models.go, with the columns that only the tables have
-- (internal/db/migrations). In a table `tls` is the number 0 or 1, a time is in seconds since 1970,
-- and an absent pointer is `none`.
use oastrix.Prelude.{ℤ, ℕ, Str, Bool, Option}

pub record ApiKey : Type 0 where
  pub id : ℕ
  pub key_prefix : Str
  pub key_hash : Str
  pub created_at : ℕ
  pub revoked_at : Option ℕ

pub record Token : Type 0 where
  pub id : ℕ
  pub token : Str
  pub api_key_id : Option ℕ
  pub created_at : ℕ
  pub label : Option Str

pub record Interaction : Type 0 where
  pub id : ℕ
  pub token_id : ℕ
  pub kind : Str
  pub occurred_at : ℕ
  pub remote_ip : Str
  pub remote_port : ℤ
  pub tls : Bool
  pub summary : Str

-- A row of the table `interactions`.
pub record InteractionRow : Type 0 where
  pub id : ℕ
  pub token_id : ℕ
  pub kind : Str
  pub occurred_at : ℕ
  pub remote_ip : Str
  pub remote_port : ℤ
  pub tls : ℕ
  pub summary : Str

pub record HttpInteraction : Type 0 where
  pub interaction_id : ℕ
  pub method : Str
  pub scheme : Str
  pub host : Str
  pub path : Str
  pub query : Str
  pub http_version : Str
  pub request_headers : Str
  pub request_body : Str

pub record DnsInteraction : Type 0 where
  pub interaction_id : ℕ
  pub qname : Str
  pub qtype : ℕ
  pub qclass : ℕ
  pub rd : ℕ
  pub opcode : ℕ
  pub dns_id : ℕ
  pub protocol : Str

-- A row of the table `interaction_attributes`.
pub record AttributeRow : Type 0 where
  pub interaction_id : ℕ
  pub key : Str
  pub value : Str

-- A row of the table `token_plugin_config`.
pub record ConfigRow : Type 0 where
  pub token_id : ℕ
  pub plugin_id : Str
  pub config : Str
