-- ===== src/Vault/Saving.antt =====
-- What the vault gives back after `set` and `delete`.
use open_agent_hub.Prelude.{
  String, Option, none, some, Bool, false, ◌≡◌, ◌≢◌, inl, inr, arith, refl, ap, ◌∙◌, subst, ◌&&◌,
  if◌then◌else◌, [], ◌∷◌, ℕ, Object, lookup, lookup_last, insert, remove, keys, spread, str_eq,
  eq_iff, eq_refl, any, In, Distinct, In-of_insert, ok, lookup-insert_self, lookup-insert_ne,
  lookup-remove, lookup-spread, Bool-cases,
}
use open_agent_hub.Vault.{
  Cipher, SecretsVault, open_file, get, drop_empty, merged_values, set, delete,
}

-- a value counts if it is not empty
abbrev pub full : Option String → Option String
full none = none
full (some v) = if str_eq v "" then none else some v

abbrev empties : String → String × String → Bool
empties j e = str_eq e.0 j && str_eq e.1 ""

module _ {Payload : Type 0} (c : Cipher Payload) where
  lookup-drop_empty :
      (j : String) (es m : Object String)
      → lookup j (drop_empty c es m) ≡ (if any (empties j) es then none else lookup j m)
  unfolding drop_empty
  lookup-drop_empty j [] m = refl
  lookup-drop_empty j ((k, v) ∷ es) m = elim (Bool-cases (str_eq v "")) [
    | inl e ↦ rw e (ground (arith, e, lookup-drop_empty j es (remove k m), lookup-remove k j m))
    | inr e ↦ rw e (ground (arith, e, lookup-drop_empty j es m))
  ]

In-of_lookup : (j v : String) (m : Object String) → lookup j m ≡ some v → In j (keys m)
unfolding lookup
In-of_lookup j v [] h = cc
In-of_lookup j v ((k, w) ∷ m) h = ground (arith, eq_iff k j, In-of_lookup j v m)

any-empties-absent :
    (j : String) (m : Object String) → ¬ (In j (keys m)) → any (empties j) m ≡ false
any-empties-absent j [] h = refl
any-empties-absent j ((k, w) ∷ m) h =
    ground (arith, eq_iff k j, any-empties-absent j m (λ i. h (inr i)))

any-empties :
    (j : String) (m : Object String)
    → Distinct (keys m)
    → (if any (empties j) m then none else lookup j m) ≡ full (lookup j m)
unfolding lookup
any-empties j [] d = refl
any-empties j ((k, w) ∷ m) (fresh, d) = elim (Bool-cases (str_eq k j)) [
  | inl e ↦
      let absent : any (empties j) m ≡ false =
        any-empties-absent j m (subst (λ x. ¬ (In x (keys m))) ((eq_iff k j).0 e) fresh) in
      rw (e, absent) (ground arith)
  | inr e ↦ rw e (any-empties j m d)
]

Distinct-insert :
    (k v : String) (m : Object String) → Distinct (keys m) → Distinct (keys (insert k v m))
unfolding insert
Distinct-insert k v [] d = ((λ z. z), tt)
Distinct-insert k v ((j, w) ∷ m) (fresh, d) = elim (Bool-cases (str_eq j k)) [
  | inl e ↦ rw e (fresh, d)
  | inr e ↦ rw e (
    (λ h. elim (In-of_insert k v m j h) [
      | inl same ↦ ground (arith, eq_iff j k)
      | inr there ↦ fresh there
    ]),
    Distinct-insert k v m d,
  )
]

Distinct-spread : (m n : Object String) → Distinct (keys m) → Distinct (keys (spread m n))
unfolding spread
Distinct-spread m [] d = d
Distinct-spread m ((k, v) ∷ n) d = Distinct-spread (insert k v m) n (Distinct-insert k v m d)

module _ {Payload : Type 0} (c : Cipher Payload) (agent : String) where
  get_missing :
      (v : SecretsVault Payload) → lookup (c.path_for agent) v.files ≡ none → get c v agent ≡ ok []
  unfolding get
  get_missing v absent = rw (absent, get) refl

  get_found :
      (v : SecretsVault Payload) (raw text : Payload) (values : Object String)
      → lookup (c.path_for agent) v.files ≡ some raw
      → c.decrypt raw v.key ≡ some text
      → c.parse text ≡ some values
      → get c v agent ≡ ok values
  unfolding get open_file
  get_found v raw text values there opens parses =
      rw (there, get) (rw (opens, open_file) (rw parses refl))

  get_same :
      (key : String) (files before : Object Payload)
      → lookup (c.path_for agent) files ≡ lookup (c.path_for agent) before
      → get c (record { key = key; files = files }) agent
        ≡ get c (record { key = key; files = before }) agent
  unfolding get open_file
  get_same key files before e = rw (e, get) refl

module _ {Payload : Type 0} (c : Cipher Payload) (agent : String) (v : SecretsVault Payload)
    (current values : Object String) where
  lookup-merged_values :
      (j : String)
      → Distinct (keys current)
      → lookup j (merged_values c current values)
        ≡ full (elim (lookup_last j values) [ some w ↦ some w | none ↦ lookup j current ])
  unfolding merged_values
  lookup-merged_values j d =
      let merged = spread current values in
      lookup-drop_empty c j merged merged
      ∙ any-empties j merged (Distinct-spread current values d)
      ∙ ap full (lookup-spread j current values)

  -- Storing values succeeds if the stored ones can be read. Where the cipher and JSON give back
  -- what went in, reading then gives each name its new value, or else its old one, and no value for
  -- a name whose value is empty. An agent with another file keeps its values; after a deletion the
  -- agent has none.
  pub set-get :
      (nonce : ℕ)
      → ((text : Payload) → c.decrypt (c.encrypt nonce text v.key) v.key ≡ some text)
      → ((o : Object String) → c.parse (c.stringify o) ≡ some o)
      → get c v agent ≡ ok current
      → Distinct (keys current)
      → (v' : SecretsVault Payload) × (saved : Object String) × (set c nonce v agent values ≡ ok v')
        × (get c v' agent ≡ ok saved)
        × ((j : String)
            → lookup j saved
              ≡ full (elim (lookup_last j values) [ some w ↦ some w | none ↦ lookup j current ]))
        × ((other : String) → c.path_for other ≢ c.path_for agent → get c v' other ≡ get c v other)
        × (get c (delete c v' agent) agent ≡ ok [])
  unfolding set delete
  set-get nonce opens parses read d =
      let saved = merged_values c current values in
      let payload = c.encrypt nonce (c.stringify saved) v.key in
      (
        record v { files = insert (c.path_for agent) payload v.files },
        saved,
        rw (read, set) refl,
        get_found c agent _ payload (c.stringify saved) saved
            (lookup-insert_self (c.path_for agent) payload v.files) (opens (c.stringify saved))
            (parses saved),
        (λ j. lookup-merged_values j d),
        (λ other apart.
            get_same c other v.key _ v.files
              (lookup-insert_ne (c.path_for agent) (c.path_for other) payload v.files apart)),
        get_missing c agent _ (simp (lookup-remove, eq_refl)),
      )
