-- ===== src/Bootstrap/Access.antt =====
-- Who is let in by the repositories of internal/platform/bootstrap/repositories.go.
use ai_workflow.Base.{
  ◌≡◌, refl, ap, ◌∙◌, ◌↔◌, inl, inr, String, Bool, true, false, Option, none, some, List, [], ◌∷◌,
  arith, if◌then◌else◌, Bool-cases, Option-cases, ok, ◌==◌, eq_iff, trim_space, is_blank,
}
use mathlib.Core.Option as Option
use ai_workflow.Base.Dict.{Dict, lookup, insert, lookup-insert, is_set, is_set-insert}
use ai_workflow.Auth.{ApiKey, Identity, authenticate}
use ai_workflow.Auth.Keys.{last_key, Separates, Admits, authenticate_iff}
use ai_workflow.Bootstrap.{BootstrapApiKey}
use ai_workflow.Bootstrap.Repositories.{
  tenant_of, api_key_of, new_tenants, build_bootstrap_api_keys, build_bootstrap_tenants,
  Repositories, open_repositories,
}
use ai_workflow.Tenant.Service as Tenants
use ai_workflow.Tenant.Service.{Tenant, add_tenants}

-- The last entry with a plaintext.
abbrev pub last_entry :
    String → Option BootstrapApiKey → List BootstrapApiKey → Option BootstrapApiKey
last_entry text found [] = found
last_entry text found (entry ∷ entries) =
    last_entry text (if entry.plaintext_key == text then some entry else found) entries

-- The first entry of a tenant.
abbrev pub first_entry : String → List BootstrapApiKey → Option BootstrapApiKey
first_entry id [] = none
first_entry id (entry ∷ entries) =
    let rest = first_entry id entries in if entry.tenant_id == id then some entry else rest

last_key-api_keys :
    (text : String) (found : Option BootstrapApiKey) (entries : List BootstrapApiKey)
    → last_key text (Option.map api_key_of found) (build_bootstrap_api_keys entries)
      ≡ Option.map api_key_of (last_entry text found entries)
last_key-api_keys text found [] = refl
last_key-api_keys text found (entry ∷ entries) =
    elim (entry.plaintext_key == text)
      as (λ b.
        last_key text (if b then some (api_key_of entry) else Option.map api_key_of found)
          (build_bootstrap_api_keys entries)
        ≡ Option.map api_key_of (last_entry text (if b then some entry else found) entries)) [
          | true ↦ last_key-api_keys text (some entry) entries
          | false ↦ last_key-api_keys text found entries
        ]

lookup-add_tenants :
    (id : String) (seen : Dict Bool) (records : Dict Tenant) (entries : List BootstrapApiKey)
    → lookup id (add_tenants records (new_tenants seen entries)) ≡ (
        if is_set id seen then lookup id records else (elim (first_entry id entries) [
          | none ↦ lookup id records
          | some entry ↦ some (tenant_of entry)
        ]))
unfolding new_tenants add_tenants
lookup-add_tenants id seen records [] = ground arith
lookup-add_tenants id seen records (entry ∷ entries) =
    let t = entry.tenant_id in
    elim (Bool-cases (is_set t seen)) [
      | inl known ↦ rw known (
          ground (
            arith,
            known,
            eq_iff t id,
            (λ (same : t ≡ id). ap (λ k. is_set k seen) same),
            lookup-add_tenants id seen records entries,
          ))
      | inr new ↦ rw new (
          ground (
            arith,
            eq_iff t id,
            (λ (same : t ≡ id). ap (λ k. is_set k seen) same),
            new,
            lookup-add_tenants id (insert t true seen) (insert t (tenant_of entry) records) entries,
            is_set-insert t id seen,
            lookup-insert t id (tenant_of entry) records,
          ))
    ]

-- Whom a raw key lets in: the last entry with its text, under the name that the first entry of the
-- tenant gives.
pub record Owns (entries : List BootstrapApiKey) (raw : String) (i : Identity) : Type 0 where
  pub entry : BootstrapApiKey
  pub named_by : BootstrapApiKey
  pub given : is_blank raw ≡ false
  pub known : last_entry (trim_space raw) none entries ≡ some entry
  pub first : first_entry entry.tenant_id entries ≡ some named_by
  pub identified : i ≡ record {
    tenant_id = entry.tenant_id;
    tenant_name = named_by.tenant_name;
    tenant_status = Tenants.active;
    api_key_id = entry.api_key_id;
    api_key_label = entry.label;
  }

first_entry-tenant_id :
    (id : String) (entries : List BootstrapApiKey) (entry : BootstrapApiKey)
    → first_entry id entries ≡ some entry
    → entry.tenant_id ≡ id
first_entry-tenant_id id [] entry e = absurd (ground (arith, e))
first_entry-tenant_id id (e' ∷ entries) entry e =
    ground (arith, e, eq_iff e'.tenant_id id, first_entry-tenant_id id entries entry)

module _ (hash_api_key : String → String) (entries : List BootstrapApiKey) (raw : String)
    (i : Identity) where
  abbrev repositories : Repositories
  repositories = open_repositories hash_api_key entries

  lookup-tenants :
      (id : String)
      → lookup id (Tenants.new_memory_repository (build_bootstrap_tenants entries))
        ≡ Option.map tenant_of (first_entry id entries)
  unfolding Tenants.new_memory_repository lookup
  lookup-tenants id = ground (arith, lookup-add_tenants id [] [] entries)

  Owns-Admits :
      Owns entries raw i
      → Admits
          (build_bootstrap_api_keys entries)
          (Tenants.new_memory_repository (build_bootstrap_tenants entries))
          raw
          i
  Owns-Admits o = record {
    key = api_key_of o.entry;
    tenant = tenant_of o.named_by;
    given = o.given;
    known = last_key-api_keys (trim_space raw) none entries ∙ ap (Option.map api_key_of) o.known;
    key_active = refl;
    owner = lookup-tenants o.entry.tenant_id ∙ ap (Option.map tenant_of) o.first;
    tenant_active = refl;
    identified =
        ground
          (arith, o.identified, first_entry-tenant_id o.entry.tenant_id entries o.named_by o.first);
  }

  Admits-Owns :
      Admits
        (build_bootstrap_api_keys entries)
        (Tenants.new_memory_repository (build_bootstrap_tenants entries))
        raw
        i
      → Owns entries raw i
  Admits-Owns a = elim (Option-cases (last_entry (trim_space raw) none entries)) [
    | inl unknown ↦
        absurd (ground (arith, a.known, unknown, last_key-api_keys (trim_space raw) none entries))
    | inr (entry, known) ↦
        let same : api_key_of entry ≡ a.key =
          ground (arith, a.known, known, last_key-api_keys (trim_space raw) none entries) in
        elim (Option-cases (first_entry entry.tenant_id entries)) [
          | inl lost ↦ absurd (
              ground (
                arith,
                a.owner,
                lost,
                lookup-tenants a.key.tenant_id,
                ap (λ (k : ApiKey). k.tenant_id) same,
              ))
          | inr (named_by, first) ↦
              let owner : tenant_of named_by ≡ a.tenant = ground (
                arith,
                a.owner,
                first,
                lookup-tenants a.key.tenant_id,
                ap (λ (k : ApiKey). k.tenant_id) same,
              ) in
              record {
                entry = entry;
                named_by = named_by;
                given = a.given;
                known = known;
                first = first;
                identified = cc (
                  a.identified,
                  ap (λ (t : Tenant). t.id) owner,
                  ap (λ (t : Tenant). t.name) owner,
                  ap (λ (t : Tenant). t.status) owner,
                  ap (λ (k : ApiKey). k.id) same,
                  ap (λ (k : ApiKey). k.label) same,
                  first_entry-tenant_id entry.tenant_id entries named_by first,
                );
              }
        ]
  ]

-- On a server that starts without a database, a raw key is accepted with an identity exactly when
-- it is not blank, the last bootstrap entry whose plaintext is the raw key without the white space
-- around it exists, and the identity is that of this entry, active and under the name that the
-- first entry of its tenant gives; no other entry may have the hash of that text.
pub authenticate-Owns :
    (hash_api_key : String → String) (entries : List BootstrapApiKey) (raw : String) (i : Identity)
    → Separates hash_api_key (trim_space raw) (build_bootstrap_api_keys entries)
    → (authenticate hash_api_key
          (open_repositories hash_api_key entries).auth
          (open_repositories hash_api_key entries).tenants
          raw
        ≡ ok i)
      ↔ Owns entries raw i
unfolding open_repositories
authenticate-Owns hash_api_key entries raw i apart =
    let (sound, complete) =
      authenticate_iff hash_api_key (build_bootstrap_api_keys entries)
        (Tenants.new_memory_repository (build_bootstrap_tenants entries)) raw i apart in
    (
      (λ accepted. Admits-Owns hash_api_key entries raw i (sound accepted)),
      (λ owned. complete (Owns-Admits hash_api_key entries raw i owned)),
    )
