-- ===== src/Vault.antt =====
-- runtime/src/secrets.ts: the vault of secrets. The cipher of node:crypto and the hash that names a
-- file are parameters; a file that cannot be read at all is a payload that does not open.
use open_agent_hub.Prelude.{
  String, Option, none, some, Bool, true, false, if◌then◌else◌, List, [], ◌∷◌, ℕ, Object, lookup,
  insert, remove, keys, spread, str_eq, is_some, concat, Result, ok, thrown, ◌>>=◌, ◌>>◌,
  starts_codes,
}
pub mod Saving

-- `encrypt` takes the random bytes, the text and the key. `stringify` and `parse` are those of JSON,
-- at objects of texts. `Payload` is the type of the texts that these functions pass to each other.
pub record Cipher (Payload : Type 0) : Type 0 where
  pub path_for : String → String
  pub encrypt : ℕ → Payload → String → Payload
  pub decrypt : Payload → String → Option Payload
  pub stringify : Object String → Payload
  pub parse : Payload → Option (Object String)

pub record SecretsVault (Payload : Type 0) : Type 0 where
  pub key : String
  pub files : Object Payload

module _ {Payload : Type 0} (c : Cipher Payload) where
  -- `has`
  unfoldable pub has : SecretsVault Payload → String → Bool
  has v agent = is_some (lookup (c.path_for agent) v.files)

  corrupt : String → String
  corrupt path = concat ("secret file " ∷ path ∷ " failed to decrypt" ∷ [])

  -- `JSON.parse(decrypt(raw, this.key))`, where every error is a corrupt vault
  unfoldable pub open_file : SecretsVault Payload → String → Payload → Result (Object String)
  unfolding corrupt
  open_file v path raw = elim (c.decrypt raw v.key) [
    | none ↦ thrown (corrupt path)
    | some text ↦ elim (c.parse text) [ none ↦ thrown (corrupt path) | some values ↦ ok values ]
  ]

  -- `get`
  unfoldable pub get : SecretsVault Payload → String → Result (Object String)
  get v agent = elim (lookup (c.path_for agent) v.files) [
    | none ↦ ok []
    | some raw ↦ open_file v (c.path_for agent) raw
  ]

  -- the loop that deletes empty values: the entries are those of the object before it
  drop_empty : Object String → Object String → Object String
  drop_empty [] m = m
  drop_empty ((k, v) ∷ es) m = drop_empty es (if str_eq v "" then remove k m else m)

  -- what `set` stores: the old values, the new ones over them, without the empty ones
  unfoldable pub merged_values : Object String → Object String → Object String
  unfolding drop_empty
  merged_values current values = let merged = spread current values in drop_empty merged merged

  -- `set`; where it throws, no file has changed
  unfoldable pub set :
      ℕ → SecretsVault Payload → String → Object String → Result (SecretsVault Payload)
  set nonce v agent values = do
    current ← get v agent
    let payload = c.encrypt nonce (c.stringify (merged_values current values)) v.key
    ok (record v { files = insert (c.path_for agent) payload v.files })

  -- `delete`
  unfoldable pub delete : SecretsVault Payload → String → SecretsVault Payload
  delete v agent = record v { files = remove (c.path_for agent) v.files }
