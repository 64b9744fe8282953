-- ===== src/Examples/Secrets.antt =====
-- The vault of secrets at concrete inputs.
use open_agent_hub.Prelude.{
  String, none, some, ◌≡◌, ◌≢◌, refl, arith, [], ◌∷◌, Object, lookup, lookup_last, keys, Distinct,
  ok, eq_iff, inl, inr,
}
use open_agent_hub.Vault.{Cipher, SecretsVault, get, set, delete}
use open_agent_hub.Vault.Saving.{set-get, full}

-- a cipher that hides nothing
abbrev plain : Cipher (Object String)
plain = record {
  path_for = λ agent. agent;
  encrypt = λ nonce text key. text;
  decrypt = λ payload key. some payload;
  stringify = λ values. values;
  parse = λ text. some text;
}

abbrev old_values : Object String
old_values = ("OPENAI_API_KEY", "sk-1") ∷ ("TOKEN", "t-1") ∷ []

abbrev new_values : Object String
new_values = ("TOKEN", "") ∷ ("PORT", "80") ∷ []

abbrev vault_before : SecretsVault (Object String)
vault_before = record { key = "master"; files = ("acme/weather", old_values) ∷ [] }

read_before : get plain vault_before "acme/weather" ≡ ok old_values
unfolding get lookup open_agent_hub.Vault.open_file
read_before = refl

old-Distinct : Distinct (keys old_values)
old-Distinct = (
  (λ h. elim h [ inl e ↦ ground (arith, eq_iff "OPENAI_API_KEY" "TOKEN") | inr z ↦ z ]),
  ((λ z. z), tt),
)

set-get_example :
    (v' : SecretsVault (Object String)) × (saved : Object String) × (set plain 0 vault_before
        "acme/weather" new_values
      ≡ ok v')
    × (get plain v' "acme/weather" ≡ ok saved)
    × ((j : String)
        → lookup j saved
          ≡ full (elim (lookup_last j new_values) [ some w ↦ some w | none ↦ lookup j old_values ]))
    × ((other : String)
        → other ≢ "acme/weather"
        → get plain v' other ≡ get plain vault_before other)
    × (get plain (delete plain v' "acme/weather") "acme/weather" ≡ ok [])
set-get_example =
    set-get plain "acme/weather" vault_before old_values new_values 0 (λ text. refl) (λ o. refl)
      read_before old-Distinct
