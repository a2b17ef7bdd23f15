-- ===== src/Planner/Validate.antt =====
-- What the mode planners reject: the Validate methods of full.go, archive.go, replay.go,
-- validator.go and seed.go under internal/planner. A height that is not positive is 0.
use sei_k8s_controller.Prelude.{
  String, not, ◌&&◌, Option, none, some, ltb, ◌==◌, str_eq, if◌then◌else◌,
}
use sei_k8s_controller.Node.{
  SnapshotGeneration, KeySource, KeyringSecret, ValidatorSpec, SeiNode, node_key_secret,
}
use sei_k8s_controller.Drift.Node.{is_empty}

unfoldable pub validate_snapshot_generation : Option SnapshotGeneration → Option String
validate_snapshot_generation none = none
validate_snapshot_generation (some sg) = elim (sg.tendermint) [
  | none ↦ some "snapshotGeneration is set but has no sub-struct"
  | some t ↦
      if t.1 && ltb (t.0) 2
      then some "snapshotGeneration.tendermint.keepRecent must be >= 2 when publish is set"
      else none
]

unfoldable pub full_validate : SeiNode → Option String
unfolding validate_snapshot_generation
full_validate node = elim (node.full_node) [
  | none ↦ some "fullNode sub-spec is nil"
  | some fn ↦ validate_snapshot_generation fn.snapshot_generation
]

unfoldable pub archive_validate : SeiNode → Option String
unfolding validate_snapshot_generation
archive_validate node = elim (node.archive) [
  | none ↦ some "archive sub-spec is nil"
  | some a ↦ validate_snapshot_generation a.snapshot_generation
]

unfoldable pub replayer_validate : SeiNode → Option String
replayer_validate node = elim (node.replayer) [
  | none ↦ some "replayer sub-spec is nil"
  | some snap ↦ elim (snap.s3) [
    | none ↦ some "replayer requires an S3 snapshot source"
    | some height ↦
        if ltb 0 height
        then (if node.peer_sources == 0
            then some "replayer requires at least one peer source for block sync"
            else none)
        else some "replayer: s3.targetHeight must be > 0"
  ]
]

-- the Secret of a key source that is not nil; "" for a nil Secret
abbrev pub secret_name : KeySource → String
secret_name k = elim (k.secret) [ none ↦ "" | some name ↦ name ]

unfoldable pub distinct_from : String → String → Option KeySource → Option String
distinct_from keyring pass none = none
distinct_from keyring pass (some k) =
    if is_empty (secret_name k)
    then none
    else if str_eq keyring (secret_name k)
    then some "validator: operatorKeyring Secret must differ from the key's Secret"
    else if not (is_empty pass) && str_eq pass (secret_name k)
    then some "validator: operatorKeyring passphrase Secret must differ from the key's Secret"
    else none

abbrev pub first_error : Option String → Option String → Option String
first_error (some e) other = some e
first_error none other = other

unfoldable pub validate_operator_keyring_distinctness : ValidatorSpec → Option String
unfolding distinct_from
validate_operator_keyring_distinctness v =
    let keyring : Option KeyringSecret = elim (v.operator_keyring) [
      | none ↦ none
      | some k ↦ k.secret
    ] in
    elim keyring [
      | none ↦ none
      | some opk ↦
          if not (is_empty opk.secret_name) && str_eq opk.secret_name opk.passphrase_secret_name
          then some "validator: operatorKeyring data Secret must differ from its passphrase Secret"
          else first_error (distinct_from opk.secret_name opk.passphrase_secret_name v.signing_key)
              (distinct_from opk.secret_name opk.passphrase_secret_name v.node_key)
    ]

-- the checks on spec.validator.signingKey, where it is set
unfoldable pub validate_signing_key_source : ValidatorSpec → KeySource → Option String
validate_signing_key_source v sk = elim (v.genesis_ceremony) [
  | some gc ↦ some "validator: signingKey is mutually exclusive with genesisCeremony"
  | none ↦
      if is_empty (secret_name sk)
      then some "validator: signingKey.secret.secretName is required"
      else elim (v.node_key) [
        | none ↦ some "validator: nodeKey is required when signingKey is set"
        | some nk ↦
            if is_empty (secret_name nk)
            then some "validator: nodeKey.secret.secretName is required"
            else if str_eq (secret_name nk) (secret_name sk)
            then some "validator: signingKey and nodeKey must reference distinct Secrets"
            else none
      ]
]

unfoldable pub validate_ceremony : ValidatorSpec → Option String
validate_ceremony v = elim (v.genesis_ceremony) [
  | none ↦ none
  | some gc ↦
      if is_empty gc.chain_id
      then some "validator: genesisCeremony.chainId is required"
      else if is_empty gc.staking_amount
      then some "validator: genesisCeremony.stakingAmount is required"
      else none
]

-- the keys of a validator
unfoldable pub validate_keys : ValidatorSpec → Option String
unfolding validate_signing_key_source
validate_keys v = elim (v.signing_key) [
  | some sk ↦ validate_signing_key_source v sk
  | none ↦ elim (v.node_key) [
    | some nk ↦ some "validator: nodeKey requires signingKey to be set"
    | none ↦ none
  ]
]

unfoldable pub validator_validate : SeiNode → Option String
unfolding validate_keys validate_operator_keyring_distinctness validate_ceremony
validator_validate node = elim (node.validator) [
  | none ↦ some "validator sub-spec is nil"
  | some v ↦
      first_error (validate_keys v)
        (first_error (validate_operator_keyring_distinctness v) (validate_ceremony v))
]

unfoldable pub seed_validate : SeiNode → Option String
unfolding node_key_secret
seed_validate node =
    let required = some "seed: nodeKey.secret.secretName is required" in
    elim (node.seed) [
      | none ↦ some "seed sub-spec is nil"
      | some k ↦ elim (node_key_secret node) [
        | none ↦ required
        | some name ↦ if is_empty name then required else none
      ]
    ]
