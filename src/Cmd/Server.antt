-- ===== src/Cmd/Server.antt =====
-- The `server` command: `runServer` of cmd/oastrix/server.go.
pub mod Challenges
pub mod Peer
pub mod DnsRecording
pub mod HttpRecording
pub mod Integrity
pub mod ReadBack
use oastrix.Prelude.{Str}
use oastrix.Runtime.{Runtime}
use oastrix.Db.{Db}
use oastrix.Plugins.Pipeline.{Pipeline, new_pipeline, set_store, register}
use oastrix.Plugins.Core.Storage.{storage_store, storage_plugin}
use oastrix.Plugins.Core.DefaultResponse.{default_response_plugin, public_ip_or_loopback}

-- The pipeline that `runServer` sets up for a public address.
unfoldable pub server_pipeline : Runtime → Str → Pipeline Db
unfolding register set_store new_pipeline
server_pipeline rt public_ip =
    register (default_response_plugin (public_ip_or_loopback (rt.parse_ip public_ip)))
      (register storage_plugin (set_store (storage_store rt) new_pipeline))
