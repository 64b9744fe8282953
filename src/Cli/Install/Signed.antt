-- ===== src/Cli/Install/Signed.antt =====
-- What an agent from the registry has passed before it is recorded.
use open_agent_hub.Prelude.{
  String, some, ◌≡◌, subst, arith, false, eq_iff, get_or_default, lookup_in, ok, throw_if,
  throw_if-eq-ok, bind-eq-ok,
}
use open_agent_hub.Permissions.{InstalledAgent, OpenAgentHubConfig, loaded, load_config}
use open_agent_hub.Package.Signature.{SignatureFile, verify_signature_file_strict}
use open_agent_hub.Sandbox.Policy.{untrusted}
use open_agent_hub.Cli.Prepare.{ParsedSpec}
use open_agent_hub.Cli.Spec.{parse_spec}
use open_agent_hub.Cli.Source.{
  Machine, AgentVersionDetail, registry, is_blocked_status, registry_trust, blocked_message,
  registry_package, resolve_from_registry, resolve_package,
}
use open_agent_hub.Cli.Install.{InstallOptions, Plan, World, installed_record, install_agent}
use open_agent_hub.Cli.Install.Recorded.{key_of, install_agent_records}

-- What the registry answered for an agent that was recorded.
pub record IsVerified (m : Machine) (spec : ParsedSpec) (detail : AgentVersionDetail)
    (archive : String) (sig : SignatureFile) (agent : InstalledAgent) : Type 0 where
  pub described :
      m.get_version spec.namespace spec.name (get_or_default spec.version "latest") ≡ ok detail
  pub sent : m.download_archive spec.namespace spec.name detail.manifest.version ≡ ok (archive, sig)
  pub signed : verify_signature_file_strict m.crypto sig archive ≡ ok tt
  pub free : is_blocked_status detail.review_status ≡ false
  pub digest : agent.archive_digest ≡ some (m.crypto.sha256_hex archive)
  pub signer : agent.signature_key_id ≡ some sig.public_key_id
  pub status : agent.review_status ≡ detail.review_status
  pub flagged : get_or_default detail.security "" ≡ "flagged" → agent.trust ≡ untrusted

module _ (m : Machine) (opts : InstallOptions) (spec : String) (w after : World) where
  registry_record :
      (url : String) (parsed : ParsedSpec) (plan : Plan)
      → resolve_package m spec registry url ≡ ok plan.resolved
      → parse_spec spec ≡ ok parsed
      → (detail : AgentVersionDetail) × (archive : String) × (sig : SignatureFile) × IsVerified m
          parsed detail archive sig
          (installed_record m plan)
  unfolding resolve_package resolve_from_registry registry_package installed_record registry_trust
  registry_record url parsed plan h parsing =
      let (spec', reading, h1) = bind-eq-ok (parse_spec spec) _ h in
      let (detail, described, h2) =
        bind-eq-ok
          (m.get_version spec'.namespace spec'.name (get_or_default spec'.version "latest")) _ h1 in
      let ((archive, sig), sent, h3) =
        bind-eq-ok (m.download_archive spec'.namespace spec'.name detail.manifest.version) _ h2 in
      let (u, signed, h4) = bind-eq-ok (verify_signature_file_strict m.crypto sig archive) _ h3 in
      let (v, free, h5) =
        bind-eq-ok
          (throw_if (is_blocked_status detail.review_status) (blocked_message spec' detail)) _ h4 in
      let same : spec' ≡ parsed = ground (arith, reading, parsing) in
      (
        detail,
        archive,
        sig,
        record {
          described =
              subst
                (λ (s : ParsedSpec).
                  m.get_version s.namespace s.name (get_or_default s.version "latest") ≡ ok detail)
                same described;
          sent =
              subst
                (λ (s : ParsedSpec).
                  m.download_archive s.namespace s.name detail.manifest.version ≡ ok (archive, sig))
                same sent;
          signed = signed;
          free = throw_if-eq-ok (is_blocked_status detail.review_status) _ free;
          digest = ground (arith, h5);
          signer = ground (arith, h5);
          status = ground (arith, h5);
          flagged = λ e. ground (arith, h5, eq_iff (get_or_default detail.security "") "flagged");
        },
      )

  -- An agent that was installed from the registry has in the saved configuration a record with the
  -- digest of an archive that the registry sent and whose signature passes the strict check, the
  -- key that signed it, and the registry's review status, which is neither rejected nor revoked; if
  -- the registry flags its security it is recorded as untrusted.
  pub install_agent-IsVerified :
      install_agent m opts spec registry w ≡ (after, ok tt)
      → (parsed : ParsedSpec) × (detail : AgentVersionDetail) × (archive : String)
        × (sig : SignatureFile) × (key : String) × (saved : OpenAgentHubConfig)
        × (agent : InstalledAgent) × (parse_spec spec ≡ ok parsed)
        × (load_config after.disk ≡ loaded saved)
        × (lookup_in key saved.installed ≡ some agent)
        × IsVerified m parsed detail archive sig agent
  install_agent-IsVerified h =
      let (plan, saved, parsing, (url, resolving), named, placed, read, recorded, granted) =
        install_agent_records m opts registry spec w after h in
      let (detail, archive, sig, verified) = registry_record url plan.spec plan resolving parsing in
      (
        plan.spec,
        detail,
        archive,
        sig,
        key_of plan,
        saved,
        installed_record m plan,
        parsing,
        read,
        recorded,
        verified,
      )
