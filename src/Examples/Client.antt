-- ===== src/Examples/Client.antt =====
-- The registry client at concrete inputs.
use open_agent_hub.Prelude.{some, ◌≡◌, refl, [], ◌∷◌, leb, concat, if◌then◌else◌, split_where}
use open_agent_hub.Package.Signature.{SignatureFile, sign_archive}
use open_agent_hub.Client.{Platform, unreachable, done, failed, registry_error}
use open_agent_hub.Client.Encoding.{encode_uri_component, ends_segment}
use open_agent_hub.Client.Endpoints.{version_path}
use open_agent_hub.Client.Endpoints.Paths.{version_path-segments}
use open_agent_hub.Client.Download.{
  Streams, streamed, download_from, total_bytes, max_download_bytes,
}
use open_agent_hub.Client.Download.Limits.{download_from-bounds}
use open_agent_hub.Examples.Data.{toy}

version_path-segments_example :
    split_where ends_segment (version_path "acme" "../admin?x" "1.0#2")
    ≡ ""
      ∷ "api"
      ∷ "v1"
      ∷ "agents"
      ∷ encode_uri_component "acme"
      ∷ encode_uri_component "../admin?x"
      ∷ "versions"
      ∷ encode_uri_component "1.0#2"
      ∷ []
version_path-segments_example = version_path-segments "acme" "../admin?x" "1.0#2"

abbrev platform : Platform
platform = record {
  fetch = λ request. unreachable "offline";
  decimal = λ n. "";
  encode_query = λ params. "";
}

abbrev signature : SignatureFile
signature = sign_archive toy "acme/weather" "1.2.0" "archive" "secret"

-- each chunk has 200 MiB
abbrev streams : Streams
streams = record {
  fetch_stream = λ url headers. streamed 200 (some ("arch" ∷ "ive" ∷ []));
  byte_length = λ chunk. 209715200;
  signature_of = λ detail. some signature;
}

download_from-bounds_example :
    download_from platform streams signature ("https://files.example/archive", []) ≡ (
      if leb (total_bytes (λ chunk. 209715200) ("arch" ∷ "ive" ∷ [])) max_download_bytes
      then done (record {
        buffer = concat ("arch" ∷ "ive" ∷ []);
        sha256 = signature.sha256;
        signature = signature;
      })
      else failed (registry_error "archive exceeds download limit" 413))
download_from-bounds_example =
    download_from-bounds platform streams signature "https://files.example/archive" [] 200
      ("arch" ∷ "ive" ∷ []) refl refl
