-- ===== src/Client/Endpoints/Paths.antt =====
-- The segments of the paths of agents and versions.
use open_agent_hub.Prelude.{
  ℕ, ◌≡◌, ◌∙◌, refl, ap, arith, String, Char, code, Bool, true, false, [], ◌∷◌, any_code, concat,
  split_where, prepend,
}
use Prim.Native.String.{◌++◌}
use text.Mathlib.TextLemmas.{nil-append, cons-append, append-nil, append_assoc}
use open_agent_hub.Client.Encoding.{
  encode_uri_component, ends_segment, encode_uri_component_segment,
}
use open_agent_hub.Client.Endpoints.{agent_path, version_path}

-- A text without a separator is the first part of what it starts.
split-append :
    (sep : ℕ → Bool) (s t : String) (c : Char)
    → any_code sep s ≡ false
    → sep (code c) ≡ true
    → split_where sep (s ++ String.◌∷◌ c t) ≡ s ∷ split_where sep t
unfolding split_where prepend
split-append sep String.[] t c h e = rw (nil-append (String.◌∷◌ c t), e) refl
split-append sep (String.◌∷◌ x s) t c h e =
    let ih = split-append sep s t c in rw (cons-append x s (String.◌∷◌ c t)) (ground (arith, ih))

split-none : (sep : ℕ → Bool) (s : String) → any_code sep s ≡ false → split_where sep s ≡ s ∷ []
unfolding split_where prepend
split-none sep String.[] h = refl
split-none sep (String.◌∷◌ x s) h = let ih = split-none sep s in ground (arith, ih)

-- a slash between two texts
split-slash :
    (s t : String)
    → any_code ends_segment s ≡ false
    → split_where ends_segment (s ++ ("/" ++ t)) ≡ s ∷ split_where ends_segment t
split-slash s t h =
    rw (cons-append "/" String.[] t, nil-append t) (split-append ends_segment s t "/" h refl)

-- the texts of the path, with each slash apart
path_text :
    (prefix middle namespace name version : String)
    → prefix ≡ "" ++ ("/" ++ ("api" ++ ("/" ++ ("v1" ++ ("/" ++ ("agents" ++ "/"))))))
    → middle ≡ "/" ++ ("versions" ++ "/")
    → concat (concat (prefix ∷ namespace ∷ "/" ∷ name ∷ []) ∷ middle ∷ version ∷ [])
      ≡ ""
        ++ ("/"
            ++ ("api"
                ++ ("/"
                    ++ ("v1"
                        ++ ("/"
                            ++ ("agents"
                                ++ ("/"
                                    ++ (namespace
                                        ++ ("/"
                                            ++ (name
                                                ++ ("/"
                                                    ++ ("versions" ++ ("/" ++ version)))))))))))))
unfolding concat
path_text prefix middle namespace name version e f = rw (e, f) (simp (append_assoc, append-nil))

-- The path of a version is cut at slashes, question marks and number signs into exactly these
-- segments: whatever the namespace, the name and the version are, each is one segment.
pub version_path-segments :
    (namespace name version : String)
    → split_where ends_segment (version_path namespace name version)
      ≡ ""
        ∷ "api"
        ∷ "v1"
        ∷ "agents"
        ∷ encode_uri_component namespace
        ∷ encode_uri_component name
        ∷ "versions"
        ∷ encode_uri_component version
        ∷ []
unfolding version_path agent_path
version_path-segments namespace name version =
    let ns = encode_uri_component namespace in
    let n = encode_uri_component name in
    let v = encode_uri_component version in
    let ns_plain = encode_uri_component_segment namespace in
    let n_plain = encode_uri_component_segment name in
    ap (split_where ends_segment) (path_text "/api/v1/agents/" "/versions/" ns n v refl refl)
    ∙ split-slash "" _ refl
    ∙ ap (λ r. "" ∷ r)
        (split-slash "api" _ refl
          ∙ ap (λ r. "api" ∷ r)
              (split-slash "v1" _ refl
                ∙ ap (λ r. "v1" ∷ r)
                    (split-slash "agents" _ refl
                      ∙ ap (λ r. "agents" ∷ r)
                          (split-slash ns _ ns_plain
                            ∙ ap (λ r. ns ∷ r)
                                (split-slash n _ n_plain
                                  ∙ ap (λ r. n ∷ r)
                                      (split-slash "versions" v refl
                                        ∙ ap (λ r. "versions" ∷ r)
                                            (split-none ends_segment v
                                              (encode_uri_component_segment version))))))))
