-- ===== src/Client/Download.antt =====
-- `downloadArchive` and `pollDeviceToken` of sdk/src/registry.ts. The answer of `fetch` for an archive
-- is its status and the chunks of its body; the record that the JSON of a version stands for is an
-- argument, as the code casts it.
use open_agent_hub.Prelude.{
  ℕ, suc, ◌+◌, ◌*◌, ◌≤◌, ◌<◌, ◌≡◌, ◌↔◌, ◌∙◌, refl, arith, ap, inl, inr, String, code, Option, none,
  some, Bool, true, false, if◌then◌else◌, List, [], ◌∷◌, ◌++◌, Bool-cases, leb, ltb, eqb, truthy,
  concat, get_or_default, Object,
}
use Prim.Native.String
use open_agent_hub.Json.{Json, Fields, no_fields, field, text, member, as_text, fields, member_in}
use open_agent_hub.Package.Signature.{SignatureFile}
use open_agent_hub.Client.{
  Response, Failure, plain, registry_error, device_auth_pending, Outcome, failed, done, ◌>>>◌,
  RegistryClient, Platform, Init, post, json, Fetched, answered, unreachable, request,
  check_response, request_headers, json_of, field_of, is_ok,
}
use open_agent_hub.Client.Endpoints.{get_version, get_download_url, version_path}
pub mod Limits

-- 250 MiB
abbrev pub max_download_bytes : ℕ
max_download_bytes = 250 * 1024 * 1024

pub data StreamFetched : Type 0 where
  stream_failed : String → StreamFetched
  streamed : ℕ → Option (List String) → StreamFetched

pub record Downloaded : Type 0 where
  pub buffer : String
  pub sha256 : String
  pub signature : SignatureFile

-- What an archive is fetched with: the stream of a URL, the number of bytes of a chunk, and the
-- signature in the description of a version.
pub record Streams : Type 0 where
  pub fetch_stream : String → Object String → StreamFetched
  pub byte_length : String → ℕ
  pub signature_of : Json → Option SignatureFile

-- the loop over the chunks, with the bytes so far
unfoldable pub read_chunks :
    (String → ℕ) → ℕ → ℕ → List String → List String → Outcome (List String)
read_chunks size limit total chunks [] = done chunks
read_chunks size limit total chunks (value ∷ rest) =
    let total' = total + size value in
    let after = read_chunks size limit total' (chunks ++ value ∷ []) rest in
    if ltb limit total' then failed (registry_error "archive exceeds download limit" 413) else after

-- the address of the archive and the headers that it is asked for with
unfoldable pub archive_location :
    Platform → RegistryClient → String → String → String → Outcome (String × Object String)
archive_location p c namespace name version =
    let direct = concat (c.base_url ∷ version_path namespace name version ∷ "/archive" ∷ []) in
    let signed = get_download_url p c namespace name version >>> field_of "url" >>> λ url.
    done (get_or_default (as_text url) "undefined", []) in
    if truthy c.token then signed else done (direct, ("Accept", "application/octet-stream") ∷ [])

abbrev chunks_of : Option (List String) → Outcome (List String)
chunks_of none = failed (registry_error "empty download" 500)
chunks_of (some chunks) = done chunks

unfoldable pub check_stream : Platform → StreamFetched → Outcome (List String)
check_stream p (stream_failed e) = failed (plain e)
check_stream p (streamed status body) =
    if is_ok status
    then chunks_of body
    else failed (registry_error (concat ("download failed: " ∷ p.decimal status ∷ [])) status)

abbrev signature_or_fail : Option SignatureFile → Outcome SignatureFile
signature_or_fail none = failed (registry_error "version has no published signature" 409)
signature_or_fail (some sig) = done sig

-- the archive at a location
unfoldable pub download_from :
    Platform → Streams → SignatureFile → String × Object String → Outcome Downloaded
download_from p streams sig (url, headers) =
    check_stream p (streams.fetch_stream url headers) >>> λ body.
    read_chunks streams.byte_length max_download_bytes 0 [] body >>> λ chunks.
    done (record { buffer = concat chunks; sha256 = sig.sha256; signature = sig })

unfoldable pub download_archive :
    Platform → Streams → RegistryClient → String → String → String → Outcome Downloaded
download_archive p streams c namespace name version =
    get_version p c namespace name version >>> λ detail.
    signature_or_fail (streams.signature_of detail) >>> λ sig.
    archive_location p c namespace name version >>> λ location. download_from p streams sig location

-- `message.split(": ").pop()`: what follows the last colon with a space; `best` is what followed the
-- last one before
unfoldable pub after_colon : String → String → String
after_colon best String.[] = best
after_colon best (String.◌∷◌ c String.[]) = best
after_colon best (String.◌∷◌ c (String.◌∷◌ d s)) =
    after_colon (if eqb (code c) 58 then (if eqb (code d) 32 then s else best) else best)
      (String.◌∷◌ d s)

-- a status of 400 says that the user has not agreed yet
unfoldable pub pending_error : Outcome Response → Outcome Response
pending_error (failed (registry_error message status)) =
    if eqb status 400
    then failed (device_auth_pending (after_colon message message))
    else failed (registry_error message status)
pending_error other = other

unfoldable pub poll_device_token : Platform → RegistryClient → String → Outcome Json
poll_device_token p c device_code =
    pending_error (
      request p c "/api/v1/auth/devices/token" (record {
        method = post;
        headers = ("Content-Type", "application/json") ∷ [];
        body = json (field "deviceCode" (text device_code) no_fields);
      }))
    >>> json_of

-- the bytes of some chunks
abbrev pub total_bytes : (String → ℕ) → List String → ℕ
total_bytes size [] = 0
total_bytes size (x ∷ xs) = size x + total_bytes size xs
