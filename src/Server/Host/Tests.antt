-- ===== src/Server/Host/Tests.antt =====
-- Tests of the host functions on the inputs of the program's own tests.
use oastrix.Prelude.{
  ◌≡◌, refl, bytes, some, index_byte, last_index_byte, has_prefix, trim_prefix, has_suffix,
  trim_suffix, trim, str_eq,
}
use oastrix.Server.Host.{split_host_port, host_name, host_token, path_token, extract_token}

split_plain_port : split_host_port (bytes "1.2.3.4:443") ≡ some (bytes "1.2.3.4", bytes "443")
unfolding split_host_port index_byte last_index_byte
split_plain_port = refl

split_ipv6 : split_host_port (bytes "[2001:db8::1]:443") ≡ some (bytes "2001:db8::1", bytes "443")
unfolding split_host_port index_byte last_index_byte
split_ipv6 = refl

extract_nested :
    extract_token
      (bytes "www.abc123.oastrix.example.com:8080")
      (bytes "/")
      (bytes "oastrix.example.com")
    ≡ bytes "abc123"
unfolding extract_token host_name split_host_port host_token path_token index_byte last_index_byte
    has_prefix trim_prefix has_suffix trim_suffix trim str_eq
extract_nested = refl

extract_path :
    extract_token (bytes "1.2.3.4") (bytes "/oast/abc123/extra/path") (bytes "oastrix.example.com")
    ≡ bytes "abc123"
unfolding extract_token host_name split_host_port host_token path_token index_byte last_index_byte
    has_prefix trim_prefix has_suffix trim_suffix trim str_eq
extract_path = refl
