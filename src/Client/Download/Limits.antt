-- ===== src/Client/Download/Limits.antt =====
-- How much a download takes, and when a login is still pending.
use open_agent_hub.Prelude.{
  ℕ, ◌+◌, ◌≤◌, ◌≡◌, ◌↔◌, refl, arith, inl, inr, String, some, true, if◌then◌else◌, List, [], ◌∷◌,
  ◌++◌, Bool-cases, Option-cases, ◌≢◌, leb, eqb, concat, Object,
}
use mathlib.Core.List.{append_assoc, append-nil}
use open_agent_hub.Json.{no_fields, field, text}
use open_agent_hub.Package.Signature.{SignatureFile}
use open_agent_hub.Client.{
  Response, plain, registry_error, device_auth_pending, failed, done, RegistryClient, Platform,
  Method, Init, json, Request, Fetched, answered, unreachable, request, check_response,
  request_headers, json_of, is_ok, ◌>>>◌,
}
use open_agent_hub.Client.Download.{
  max_download_bytes, Streams, streamed, read_chunks, check_stream, download_from, total_bytes,
  pending_error, poll_device_token,
}

read_chunks_lem :
    (size : String → ℕ) (limit total : ℕ) (acc chunks : List String)
    → total ≤ limit
    → read_chunks size limit total acc chunks ≡ (
        if leb (total + total_bytes size chunks) limit
        then done (acc ++ chunks)
        else failed (registry_error "archive exceeds download limit" 413))
unfolding read_chunks
read_chunks_lem size limit total acc [] h = ground (arith, append-nil acc)
read_chunks_lem size limit total acc (x ∷ xs) h = ground (
  arith,
  read_chunks_lem size limit (total + size x) (acc ++ x ∷ []) xs,
  append_assoc acc (x ∷ []) xs,
)

-- An archive whose body arrives with a good status is returned, all of its chunks in their order,
-- exactly if they have at most 250 MiB together; otherwise the download fails with status 413.
pub download_from-bounds :
    (p : Platform) (streams : Streams) (sig : SignatureFile) (url : String)
    (headers : Object String) (status : ℕ) (chunks : List String)
    → streams.fetch_stream url headers ≡ streamed status (some chunks)
    → is_ok status ≡ true
    → download_from p streams sig (url, headers) ≡ (
        if leb (total_bytes streams.byte_length chunks) max_download_bytes
        then done (record { buffer = concat chunks; sha256 = sig.sha256; signature = sig })
        else failed (registry_error "archive exceeds download limit" 413))
unfolding download_from check_stream
download_from-bounds p streams sig url headers status chunks sent good =
    let q = read_chunks_lem streams.byte_length max_download_bytes 0 [] chunks in
    rw (sent, good, q (omega arith)) (ground arith)

-- the request of a poll
abbrev pub poll_request : RegistryClient → String → Request
poll_request c device_code =
    let init : Init = record {
      method = Method.post;
      headers = ("Content-Type", "application/json") ∷ [];
      body = json (field "deviceCode" (text device_code) no_fields);
    } in
    record {
      method = Method.post;
      url = concat (c.base_url ∷ "/api/v1/auth/devices/token" ∷ []);
      headers = request_headers c init;
      body = json (field "deviceCode" (text device_code) no_fields);
    }

json_not_pending : (res : Response) (m : String) → json_of res ≢ failed (device_auth_pending m)
unfolding json_of
json_not_pending res m h = elim (Option-cases res.body) [
  | inl e ↦
      let k : failed (plain "Unexpected end of JSON input") ≡ failed (device_auth_pending m) =
        rw e at h in
      ground arith
  | inr (value, e) ↦ let k : done value ≡ failed (device_auth_pending m) = rw e at h in ground arith
]

pending_iff :
    (p : Platform) (path : String) (answer : Fetched)
    → ((m : String) × ((pending_error (check_response p path answer) >>> json_of)
          ≡ failed (device_auth_pending m)))
      ↔ ((res : Response) × (answer ≡ answered res) × (res.status ≡ 400))
unfolding pending_error check_response
pending_iff p path (unreachable e) = ((λ h. ground arith), (λ h. ground arith))
pending_iff p path (answered res) = elim (Bool-cases (is_ok res.status)) [
  | inl good ↦ rw good ((λ h. absurd (json_not_pending res h.0 h.1)), (λ h. ground arith))
  | inr bad ↦ elim (Bool-cases (eqb res.status 400)) [
    | inl is ↦ rw (bad, is) ((λ h. (res, refl, ground arith)), (λ h. (_, refl)))
    | inr other ↦ rw (bad, other) ((λ h. ground arith), (λ h. ground arith))
  ]
]

-- A poll says that the login is pending exactly if the registry answers with status 400.
pub poll_device_token_pending_iff :
    (p : Platform) (c : RegistryClient) (device_code : String)
    → ((m : String) × (poll_device_token p c device_code ≡ failed (device_auth_pending m))) ↔ (
        (res : Response) × (p.fetch (poll_request c device_code) ≡ answered res)
        × (res.status ≡ 400))
unfolding poll_device_token request
poll_device_token_pending_iff p c device_code =
    pending_iff p "/api/v1/auth/devices/token" (p.fetch (poll_request c device_code))
