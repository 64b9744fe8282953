-- ===== src/Cli/Resolve.antt =====
-- cli/src/lib/resolve.ts: the installed versions of an agent, lowest first, and the one that a
-- request means.
use open_agent_hub.Prelude.{
  String, Option, none, some, ◌≡◌, Bool, true, false, if◌then◌else◌, List, [], ◌∷◌, keep, map, find,
  last, length, ltb, eqb, starts_with, concat, str_eq, truthy, get_or_default, Object, Result, ok,
  thrown, ℕ,
}
use open_agent_hub.Permissions.{InstalledAgent, OpenAgentHubConfig}
use open_agent_hub.Cli.Version.{Order, compare_versions, sort, highest_version}
pub mod Matches

pub record InstalledMatch : Type 0 where
  pub key : String
  pub record_ : InstalledAgent

abbrev pub as_match : String × InstalledAgent → InstalledMatch
as_match entry = record { key = entry.0; record_ = entry.1 }

abbrev not_installed : String → String → Option String → String
not_installed namespace name version = concat (
    "agent '"
    ∷ namespace
    ∷ "/"
    ∷ name
    ∷ (if truthy version then concat ("@" ∷ get_or_default version "" ∷ []) else "")
    ∷ "' is not installed"
    ∷ [])

-- `x` or the error
abbrev pub or_throw : Option InstalledMatch → String → Result InstalledMatch
or_throw none message = thrown message
or_throw (some m) message = ok m

-- `version ? matches.find(…) : matches[matches.length - 1]`
unfoldable pub choose : List InstalledMatch → Option String → Option InstalledMatch
choose matches version =
    let exact =
      find (λ (m : InstalledMatch). str_eq m.record_.version (get_or_default version "")) matches in
    if truthy version then exact else last matches

module _ (locale_compare : String → String → Order) (decimal : ℕ → String) where
  abbrev pub compare_matches : InstalledMatch → InstalledMatch → Order
  compare_matches a b = compare_versions locale_compare decimal a.record_.version b.record_.version

  unfoldable pub installed_matches : OpenAgentHubConfig → String → String → List InstalledMatch
  installed_matches config namespace name =
      let prefix = concat (namespace ∷ "/" ∷ name ∷ "@" ∷ []) in
      sort compare_matches (
        map as_match (
          keep (λ (e : String × InstalledAgent). starts_with prefix e.0)
            (get_or_default config.installed [])))

  unfoldable pub resolve_installed_or_throw :
      OpenAgentHubConfig → String → String → Option String → Result InstalledMatch
  resolve_installed_or_throw config namespace name version =
      or_throw (choose (installed_matches config namespace name) version)
        (not_installed namespace name version)

  unfoldable pub highest_installed_version : List InstalledMatch → Option String
  highest_installed_version matches =
      highest_version locale_compare decimal
        (map (λ (m : InstalledMatch). m.record_.version) matches)
