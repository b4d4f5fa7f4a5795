-- ===== src/Cli/Shown.antt =====
-- The commands `init` and `status` of src/main.rs, one after the other.
use nexus_client.Prelude.{
  ℕ, ◌≡◌, refl, subst, ap, ◌∙◌, Bool, true, false, none, some, List, String, length, lookup, ok,
  map_err-eq-ok,
}
use nexus_client.Utf8.{as_bytes}
use nexus_client.External.Crypto.{Base58, Ed25519}
use nexus_client.External.Solana.{Solana}
use nexus_client.External.Keypairs.{Keypairs}
use nexus_client.External.Toml.{Toml}
use nexus_client.Disk.{Disk, Host, file, ◌>>=◌, lift, pure, failing, join, exists, read}
use nexus_client.Disk.Grown.{Grown}
use nexus_client.Disk.Reading.{
  read_to_string_lem, bind-eq-ok, failing-eq-ok, lift-eq-ok, pure-eq-ok,
}
use nexus_client.Keys.{
  node_key_file, owner_only, generate, node_key_exists, pubkey_base58, save, load, write_new_secure,
}
use nexus_client.Keys.Added.{write_new_secure-Added}
use nexus_client.Keys.Saved.{lookup-Added, lookup-save}
use nexus_client.Config.Defaults.{with_model}
use nexus_client.Config.Stored.{config_file, save_config, load_config}
use nexus_client.Cli.{Status, init_unless, finish_init, cmd_init, status_when, cmd_status}
use nexus_client.Cli.Init.{Grows-finish_init}

module _ (C : Solana) (W : Keypairs C) (E : Ed25519) (B : Base58) (T : Toml) (host : Host) where
  module _ (seed : List ℕ) (size : length seed ≡ 32) (dir model : String) where
    abbrev key : E.SigningKey
    key = generate E seed

    -- The node key, and the configuration of the model, are on the disk.
    record Stored (d : Disk) : Type 0 where
      text : String
      printed : T.to_string_pretty (with_model model) ≡ ok text
      key_kept : lookup (join dir node_key_file) d ≡ some (file seed owner_only)
      config_kept : lookup (join dir config_file) d ≡ some (file (as_bytes text) owner_only)

    abbrev ConfigStored : Disk → Type 0
    ConfigStored d =
        (text : String) × (T.to_string_pretty (with_model model) ≡ ok text)
        × (lookup (join dir config_file) d ≡ some (file (as_bytes text) owner_only))

    written_at :
        (path : String) (bytes : List ℕ) (d : Disk) {d' : Disk}
        → write_new_secure host path bytes d ≡ (ok tt, d')
        → lookup path d' ≡ some (file bytes owner_only)
    written_at path bytes d e =
        subst (λ x. lookup path x ≡ some (file bytes owner_only)) (ap (λ r. r.1) e)
          (lookup-Added (write_new_secure-Added host path bytes d) (ap (λ r. r.0) e))

    config_stored :
        (d : Disk) {d' : Disk}
        → save_config T host (with_model model) dir d ≡ (ok tt, d')
        → ConfigStored d'
    unfolding save_config
    config_stored d e =
        let (text, d1, printed, e1) = bind-eq-ok _ _ d e in
        (text, map_err-eq-ok _ _ (lift-eq-ok _ d printed).0, written_at _ _ d1 e1)

    key_stored :
        (d : Disk) {d' : Disk}
        → save E host key dir d ≡ (ok tt, d')
        → lookup (join dir node_key_file) d' ≡ some (file seed owner_only)
    key_stored d e =
        subst (λ x. lookup (join dir node_key_file) x ≡ some (file seed owner_only))
          (ap (λ r. r.1) e)
          (lookup-save E host key dir d (ap (λ r. r.0) e)
            ∙ ap (λ b. some (file b owner_only)) (E.to_bytes-from_bytes seed size))

    module _ {node_pk wallet_pk : String} {d' : Disk} where
      finished :
          (wallet : C.Keypair) (d : Disk)
          → finish_init C W E B T host key wallet dir model d ≡ (ok (node_pk, wallet_pk), d')
          → (pubkey_base58 E B key ≡ node_pk) × ConfigStored d'
      unfolding finish_init
      finished wallet d e =
          let (_, d1, saved, e1) = bind-eq-ok _ _ d e in
          let (pk, d2, loaded, e2) = bind-eq-ok _ _ d1 e1 in
          let (_, d3, configured, e3) = bind-eq-ok _ _ d2 e2 in
          let (same, here) = pure-eq-ok (pubkey_base58 E B key, pk) d3 e3 in
          (
            ap (λ r. r.0) same,
            subst ConfigStored here (config_stored d2 (failing-eq-ok _ _ d2 configured)),
          )

      init_leaves :
          (b : Bool) (fresh : C.Keypair) (wallet : String) (d : Disk)
          → init_unless C W E B T host b seed fresh dir model wallet d
            ≡ (ok (node_pk, wallet_pk), d')
          → (pubkey_base58 E B key ≡ node_pk) × Stored d'
      unfolding init_unless
      init_leaves true fresh wallet d e = let wrong = (lift-eq-ok _ d e).0 in cc
      init_leaves false fresh wallet d e =
          let (k, d1, _, e1) = bind-eq-ok _ _ d e in
          let (_, d2, _, e2) = bind-eq-ok _ _ d1 e1 in
          let (_, d3, saved, e3) = bind-eq-ok _ _ d2 e2 in
          let (shown, stored) = finished k d3 e3 in
          let (text, printed, config) = stored in
          let grown : Grown d3 d' =
            subst (Grown d3) (ap (λ r. r.1) e3)
              ((Grows-finish_init C W E B T host key k dir model).at d3) in
          (
            shown,
            record {
              text = text;
              printed = printed;
              key_kept = grown.keeps _ _ (key_stored d2 (failing-eq-ok _ _ d2 saved));
              config_kept = config;
            },
          )

    -- The two files that `status` reads, and the test for the first, have no fault.
    pub record IsReadable (d : Disk) : Type 0 where
      pub stat : host.stat_fails d (join dir node_key_file) ≡ false
      pub key_read : host.read_fails d (join dir node_key_file) ≡ none
      pub config_read : host.read_fails d (join dir config_file) ≡ none

    -- The configuration's text is read back as the configuration that was written.
    abbrev pub IsReadBack : Type 0
    IsReadBack =
        (text : String)
        → T.to_string_pretty (with_model model) ≡ ok text
        → T.from_str text ≡ ok (with_model model)

    abbrev pub shown : String → Status
    shown node_pk = record {
      model = model;
      upstream = (with_model model).upstream;
      gateway = (with_model model).gateway;
      node = node_pk;
    }

    load-eq : (d : Disk) → IsReadable d → Stored d → load E host dir d ≡ (ok key, d)
    unfolding load read lift ◌>>=◌
    load-eq d r s = rw (s.key_kept, r.key_read, size) refl

    load_config-eq :
        (d : Disk)
        → IsReadable d
        → Stored d
        → IsReadBack
        → load_config T host dir d ≡ (ok (with_model model), d)
    unfolding load_config lift ◌>>=◌
    load_config-eq d r s back =
        rw
          (
            read_to_string_lem host (join dir config_file) s.text d owner_only s.config_kept
                r.config_read,
            back s.text s.printed,
          )
          refl

    shown_at :
        (d : Disk)
        → IsReadable d
        → Stored d
        → IsReadBack
        → cmd_status C W E B T host dir d ≡ (ok (shown (pubkey_base58 E B key)), d)
    unfolding cmd_status node_key_exists exists status_when failing pure with_model ◌>>=◌
    shown_at d r s back = rw (r.stat, s.key_kept, load_config-eq d r s back, load-eq d r s) refl

    -- After a successful `init`, on every disk that keeps what it left and from which the files can be read, `status`
    -- prints the model that was given, the default upstream and gateway, and the node key that `init` printed,
    -- when the configuration's TOML is read back.
    pub status-init :
        (fresh : C.Keypair) (wallet node_pk wallet_pk : String) (d d' d'' : Disk)
        → cmd_init C W E B T host seed fresh dir model wallet d ≡ (ok (node_pk, wallet_pk), d')
        → Grown d' d''
        → IsReadable d''
        → IsReadBack
        → cmd_status C W E B T host dir d'' ≡ (ok (shown node_pk), d'')
    unfolding cmd_init
    status-init fresh wallet node_pk wallet_pk d d' d'' e g r back =
        let (b, d1, _, e1) = bind-eq-ok _ _ d e in
        let (same, s) = init_leaves b fresh wallet d1 e1 in
        shown_at d'' r
          (record {
            text = s.text;
            printed = s.printed;
            key_kept = g.keeps _ _ s.key_kept;
            config_kept = g.keeps _ _ s.config_kept;
          })
          back
        ∙ ap (λ k. (ok (shown k), d'')) same
